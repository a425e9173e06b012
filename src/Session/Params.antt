-- ===== src/Session/Params.antt =====
-- FormatParams and ParseParams of store/sessionfile.go: generation parameters as key=value lines.
pub mod Laws
use ollie_9p.Prelude.{
  ℕ, Bytes, bytes_eq, ◌==◌, Bool, true, false, Option, none, some, List, [], ◌∷◌, ◌++◌,
  if◌then◌else◌, codes,
}
use ollie_9p.Prelude.Int.{ℤ, pos}
use ollie_9p.Prelude.Outcome.{Outcome, ok, err, panic}
use ollie_9p.Agent.{Floats, GenerationParams}
use ollie_9p.Text.{cut, split}
use ollie_9p.Text.Space.{trim_space}
use ollie_9p.Text.Number.{atoi, print_int}

-- The keys that stand for a parameter.
pub data ParamKey : Type 0 where
  max_tokens temperature frequency_penalty presence_penalty : ParamKey

unfoldable pub param_key : Bytes → Option ParamKey
param_key k =
    if k == codes "maxTokens"
    then some max_tokens
    else if k == codes "temperature"
    then some temperature
    else if k == codes "frequencyPenalty"
    then some frequency_penalty
    else if k == codes "presencePenalty"
    then some presence_penalty
    else none

module _ (F : Floats) where
  open F use {Float, parse_float, format_float}

  -- "%g\n" of a parameter, or a blank value for nil
  abbrev pub format_option : Option Float → Bytes
  format_option none = codes "\n"
  format_option (some f) = format_float f ++ codes "\n"

  -- FormatParams
  unfoldable pub format_params : GenerationParams Float → Bytes
  format_params p =
      codes "maxTokens="
      ++ (print_int p.max_tokens
          ++ (codes "\n"
              ++ (codes "temperature="
                  ++ (format_option p.temperature
                      ++ (codes "frequencyPenalty="
                          ++ (format_option p.frequency_penalty
                              ++ (codes "presencePenalty="
                                  ++ format_option p.presence_penalty)))))))

  -- A number that is left blank is 0; one that does not parse is `none`.
  abbrev pub parse_int : Bytes → Option ℤ
  parse_int [] = some (pos 0)
  parse_int (c ∷ v) = atoi (c ∷ v)

  -- A float that is left blank is nil.
  abbrev pub parse_option : Bytes → Option (Option Float)
  parse_option [] = some none
  parse_option (c ∷ v) = elim (parse_float (c ∷ v)) [ none ↦ none | some f ↦ some (some f) ]

  -- The parameters with one of them set from its text; `none` if the text does not parse.
  unfoldable pub set_param :
      ParamKey → Bytes → GenerationParams Float → Option (GenerationParams Float)
  set_param max_tokens v p = elim (parse_int v) [
    | none ↦ none
    | some n ↦ some (record p { max_tokens = n })
  ]
  set_param temperature v p = elim (parse_option v) [
    | none ↦ none
    | some f ↦ some (record p { temperature = f })
  ]
  set_param frequency_penalty v p = elim (parse_option v) [
    | none ↦ none
    | some f ↦ some (record p { frequency_penalty = f })
  ]
  set_param presence_penalty v p = elim (parse_option v) [
    | none ↦ none
    | some f ↦ some (record p { presence_penalty = f })
  ]

  -- One line: what is no assignment to a parameter is passed over.
  unfoldable pub parse_line : Bytes → GenerationParams Float → Outcome (GenerationParams Float)
  parse_line line p = elim (cut line b'=') [
    | none ↦ ok p
    | some (k, v) ↦ elim (param_key (trim_space k)) [
      | none ↦ ok p
      | some key ↦ elim (set_param key (trim_space v) p) [
        | none ↦ err (codes "invalid " ++ (trim_space k ++ (codes ": " ++ trim_space v)))
        | some p' ↦ ok p'
      ]
    ]
  ]

  unfoldable pub parse_lines :
      List Bytes → GenerationParams Float → Outcome (GenerationParams Float)
  parse_lines [] p = ok p
  parse_lines (line ∷ rest) p = elim (parse_line line p) [
    | ok p' ↦ parse_lines rest p'
    | err e ↦ err e
    | panic ↦ panic
  ]

  -- ParseParams. With an error Go also returns the parameters so far, which no caller reads.
  unfoldable pub parse_params : Bytes → GenerationParams Float → Outcome (GenerationParams Float)
  parse_params input current = parse_lines (split input b'\n') current
