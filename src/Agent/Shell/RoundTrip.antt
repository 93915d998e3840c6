-- ===== src/Agent/Shell/RoundTrip.antt =====
-- A command line that is written with every word in single quotes parses back to its words
-- (packages/agent/src/bashPolicy.ts).
use ironflow_js.Prelude.{
  ◌≡◌, refl, sym, true, false, some, List, [], ◌∷◌, ◌++◌, any, All, length, ◌==◌, arith,
}
use mathlib.Core.Path.{subst}
use mathlib.Core.List.{append_assoc, append-nil}
use ironflow_js.Durable.Text.{Text, strip_prefix}
use ironflow_js.Agent.Shell.{
  Word, Pipelines, Scan, Parsed, split_at, single_quote, bar, ampersand, go_if, end_word,
  end_command, end_pipeline, append_quoted, read_char, round, stderr_drop, stripped_drop,
  parse_words, finish, push_pipeline, push_command,
}
use ironflow_js.Agent.Shell.Total.{Scans, Scans-scan}

-- `'w' `, in front of the rest.
abbrev pub write_word : Text → Text → Text
write_word w rest = 39 ∷ (w ++ 39 ∷ 32 ∷ rest)

unfoldable pub write_words : List Text → Text → Text
write_words [] rest = rest
write_words (w ∷ ws) rest = write_word w (write_words ws rest)

-- The commands of a pipeline, with `|` between them.
unfoldable pub write_pipeline : List (List Text) → Text → Text
unfolding write_words
write_pipeline [] rest = rest
write_pipeline (c ∷ []) rest = write_words c rest
write_pipeline (c ∷ d ∷ cs) rest = write_words c (b'|' ∷ write_pipeline (d ∷ cs) rest)

-- The pipelines of a command line, with `&&` between them.
unfoldable pub write_pipelines : List (List (List Text)) → Text
unfolding write_pipeline
write_pipelines [] = []
write_pipelines (p ∷ []) = write_pipeline p []
write_pipelines (p ∷ q ∷ ps) = write_pipeline p (b'&' ∷ b'&' ∷ write_pipelines (q ∷ ps))

-- No quote in a word, a word in each command, a command in each pipeline, a pipeline at all.
abbrev pub IsQuotable : Text → Type 0
IsQuotable w = any (λ c. c == 39) w ≡ false

abbrev pub IsCommand : List Text → Type 0
IsCommand [] = ⊥
IsCommand (w ∷ ws) = All IsQuotable (w ∷ ws)

abbrev pub IsPipeline : List (List Text) → Type 0
IsPipeline [] = ⊥
IsPipeline (c ∷ cs) = All IsCommand (c ∷ cs)

abbrev pub IsCommandLine : List (List (List Text)) → Type 0
IsCommandLine [] = ⊥
IsCommandLine (p ∷ ps) = All IsPipeline (p ∷ ps)

-- The loop between two words.
abbrev between : Pipelines → List (List Word) → List Word → Scan
between ps p ws = record {
  pipelines = ps;
  pipeline = p;
  words = ws;
  word = [];
  glob = false;
  quoted = false;
  in_word = false;
}

abbrev quoted_word : Text → Word
quoted_word w = record { text = w; glob = false; quoted = true }

split_at-quoted : (w rest : Text) → IsQuotable w → split_at 39 (w ++ 39 ∷ rest) ≡ some (w, rest)
unfolding split_at
split_at-quoted [] rest h = refl
split_at-quoted (c ∷ w) rest h = ground (arith, split_at-quoted w rest)

Scans-write_word :
    (w rest : Text) (ps : Pipelines) (p : List (List Word)) (ws : List Word) (r : Parsed)
    → IsQuotable w
    → Scans rest (between ps p (ws ++ quoted_word w ∷ [])) r
    → Scans (write_word w rest) (between ps p ws) r
unfolding round read_char single_quote append_quoted end_word stderr_drop stripped_drop strip_prefix
Scans-write_word w rest ps p ws r h run =
    Scans.goes {more = 32 ∷ rest} {t = append_quoted w (between ps p ws)}
      (ground (arith, split_at-quoted w (32 ∷ rest) h)) (Scans.goes refl run)

abbrev command_of : List Text → List Word
command_of [] = []
command_of (w ∷ ws) = quoted_word w ∷ command_of ws

abbrev pipeline_of : List (List Text) → List (List Word)
pipeline_of [] = []
pipeline_of (c ∷ cs) = command_of c ∷ pipeline_of cs

abbrev pub pipelines_of : List (List (List Text)) → Pipelines
pipelines_of [] = []
pipelines_of (p ∷ ps) = pipeline_of p ∷ pipelines_of ps

Scans-write_words :
    (c : List Text) (rest : Text) (ps : Pipelines) (p : List (List Word)) (ws : List Word)
    (r : Parsed)
    → All IsQuotable c
    → Scans rest (between ps p (ws ++ command_of c)) r
    → Scans (write_words c rest) (between ps p ws) r
unfolding write_words
Scans-write_words [] rest ps p ws r h run =
    subst (λ (l : List Word). Scans rest (between ps p l) r) (append-nil ws) run
Scans-write_words (w ∷ c) rest ps p ws r h run =
    Scans-write_word w (write_words c rest) ps p ws r h.0 (
      Scans-write_words c rest ps p (ws ++ quoted_word w ∷ []) r h.1 (
        subst (λ (l : List Word). Scans rest (between ps p l) r)
          (sym (append_assoc ws (quoted_word w ∷ []) (command_of c))) run))

-- A command and the bar behind it; the next command begins with a quote.
Scans-bar :
    (c : List Text) (rest tail : Text) (ps : Pipelines) (p : List (List Word)) (r : Parsed)
    → IsCommand c
    → rest ≡ 39 ∷ tail
    → Scans rest (between ps (p ++ command_of c ∷ []) []) r
    → Scans (write_words c (b'|' ∷ rest)) (between ps p []) r
unfolding round read_char bar end_command end_word go_if push_command stderr_drop stripped_drop
    strip_prefix
Scans-bar [] rest tail ps p r h e run = elim h [ ]
Scans-bar (w ∷ c) rest tail ps p r h e run =
    Scans-write_words (w ∷ c) (b'|' ∷ rest) ps p [] r h (Scans.goes {more = rest} (rw e) run)

-- A command and the two ampersands behind it.
Scans-ampersands :
    (c : List Text) (rest : Text) (ps : Pipelines) (p : List (List Word)) (r : Parsed)
    → IsCommand c
    → Scans rest (between (ps ++ (p ++ command_of c ∷ []) ∷ []) [] []) r
    → Scans (write_words c (b'&' ∷ b'&' ∷ rest)) (between ps p []) r
unfolding round read_char ampersand end_pipeline end_command end_word go_if push_command
    push_pipeline stderr_drop stripped_drop strip_prefix
Scans-ampersands [] rest ps p r h run = elim h [ ]
Scans-ampersands (w ∷ c) rest ps p r h run =
    Scans-write_words (w ∷ c) (b'&' ∷ b'&' ∷ rest) ps p [] r h (Scans.goes refl run)

Scans-last :
    (c : List Text) (ps : Pipelines) (p : List (List Word))
    → IsCommand c
    → Scans
        (write_words c [])
        (between ps p [])
        (Parsed.parsed (ps ++ (p ++ command_of c ∷ []) ∷ []))
unfolding end_pipeline end_command end_word push_command push_pipeline finish
Scans-last [] ps p h = elim h [ ]
Scans-last (w ∷ c) ps p h = Scans-write_words (w ∷ c) [] ps p [] _ h (Scans.ends refl)

tail_of : Text → Text
tail_of [] = []
tail_of (c ∷ s) = s

write_pipeline-quote :
    (c : List Text) (cs : List (List Text)) (rest : Text)
    → IsCommand c
    → write_pipeline (c ∷ cs) rest ≡ 39 ∷ tail_of (write_pipeline (c ∷ cs) rest)
unfolding write_pipeline tail_of
write_pipeline-quote [] cs rest h = elim h [ ]
write_pipeline-quote (w ∷ c) [] rest h = refl
write_pipeline-quote (w ∷ c) (d ∷ cs) rest h = refl

Scans-pipeline_ampersands :
    (c : List Text) (cs : List (List Text)) (rest : Text) (ps : Pipelines) (p : List (List Word))
    (r : Parsed)
    → All IsCommand (c ∷ cs)
    → Scans rest (between (ps ++ (p ++ pipeline_of (c ∷ cs)) ∷ []) [] []) r
    → Scans (write_pipeline (c ∷ cs) (b'&' ∷ b'&' ∷ rest)) (between ps p []) r
unfolding write_pipeline
Scans-pipeline_ampersands c [] rest ps p r h run = Scans-ampersands c rest ps p r h.0 run
Scans-pipeline_ampersands c (d ∷ cs) rest ps p r h run =
    Scans-bar c (write_pipeline (d ∷ cs) (b'&' ∷ b'&' ∷ rest)) _ ps p r h.0
      (write_pipeline-quote d cs (b'&' ∷ b'&' ∷ rest) h.1.0)
      (Scans-pipeline_ampersands d cs rest ps (p ++ command_of c ∷ []) r h.1 (
        subst (λ (l : List (List Word)). Scans rest (between (ps ++ l ∷ []) [] []) r)
          (sym (append_assoc p (command_of c ∷ []) (pipeline_of (d ∷ cs)))) run))

Scans-pipeline_last :
    (c : List Text) (cs : List (List Text)) (ps : Pipelines) (p : List (List Word))
    → All IsCommand (c ∷ cs)
    → Scans
        (write_pipeline (c ∷ cs) [])
        (between ps p [])
        (Parsed.parsed (ps ++ (p ++ pipeline_of (c ∷ cs)) ∷ []))
unfolding write_pipeline
Scans-pipeline_last c [] ps p h = Scans-last c ps p h.0
Scans-pipeline_last c (d ∷ cs) ps p h =
    Scans-bar c (write_pipeline (d ∷ cs) []) _ ps p _ h.0 (write_pipeline-quote d cs [] h.1.0) (
      subst
        (λ (l : List (List Word)).
          Scans (write_pipeline (d ∷ cs) []) (between ps (p ++ command_of c ∷ []) [])
            (Parsed.parsed (ps ++ l ∷ [])))
        (append_assoc p (command_of c ∷ []) (pipeline_of (d ∷ cs)))
        (Scans-pipeline_last d cs ps (p ++ command_of c ∷ []) h.1))

Scans-pipelines :
    (p : List (List Text)) (line : List (List (List Text))) (ps : Pipelines)
    → All IsPipeline (p ∷ line)
    → Scans
        (write_pipelines (p ∷ line))
        (between ps [] [])
        (Parsed.parsed (ps ++ pipelines_of (p ∷ line)))
unfolding write_pipelines
Scans-pipelines [] line ps h = elim (h.0) [ ]
Scans-pipelines (c ∷ cs) [] ps h = Scans-pipeline_last c cs ps [] h.0
Scans-pipelines (c ∷ cs) (q ∷ line) ps h =
    Scans-pipeline_ampersands c cs (write_pipelines (q ∷ line)) ps [] _ h.0 (
      subst
        (λ (l : Pipelines).
          Scans (write_pipelines (q ∷ line)) (between (ps ++ pipeline_of (c ∷ cs) ∷ []) [] [])
            (Parsed.parsed l))
        (append_assoc ps (pipeline_of (c ∷ cs) ∷ []) (pipelines_of (q ∷ line)))
        (Scans-pipelines q line (ps ++ pipeline_of (c ∷ cs) ∷ []) h.1))

-- A command line written from words without single quotes, each in single quotes, with a bar
-- between the commands of a pipeline and two ampersands between the pipelines, parses to those
-- words, each of them quoted and none of them a glob, where no command, pipeline or line is empty.
pub parse_words-write_pipelines :
    (line : List (List (List Text)))
    → IsCommandLine line
    → parse_words (write_pipelines line) ≡ Parsed.parsed (pipelines_of line)
unfolding parse_words
parse_words-write_pipelines [] h = elim h [ ]
parse_words-write_pipelines (p ∷ line) h =
    Scans-scan (length (write_pipelines (p ∷ line))) (Scans-pipelines p line [] h) (omega arith)
