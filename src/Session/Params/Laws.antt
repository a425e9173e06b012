-- ===== src/Session/Params/Laws.antt =====
-- Parameters that are printed are read back.
use ollie_9p.Prelude.{
  suc, ap, append-nil, Bytes, bytes_eq, bytes_beq, false, Option, none, some, List, [], ◌∷◌, ◌++◌,
  codes, ◌≡◌, ◌≢◌, refl, ◌∙◌, arith, append_assoc,
}
use ollie_9p.Prelude.Int.{ℤ, pos, negsuc}
use ollie_9p.Prelude.Outcome.{ok}
use ollie_9p.Agent.{Floats, GenerationParams}
use ollie_9p.Text.{contains, cut, split}
use ollie_9p.Text.Laws.{cut-append, split-append, contains-append}
use ollie_9p.Text.Space.Laws.{AllPlain, trim_space-plain}
use ollie_9p.Text.Number.{print_int, atoi, IsInt64, print_nat}
use ollie_9p.Text.Number.Laws.{AllDigits, print_nat-AllDigits, atoi-print_int, print_nat-ne-nil}
use ollie_9p.Session.Params.{
  ParamKey, max_tokens, temperature, frequency_penalty, presence_penalty, param_key, set_param,
  format_option, format_params, parse_int, parse_option, parse_line, parse_lines, parse_params,
}

AllDigits-AllPlain : (s : Bytes) → AllDigits s → AllPlain s
AllDigits-AllPlain [] h = tt
AllDigits-AllPlain (c ∷ s) h = ((omega arith, omega arith), AllDigits-AllPlain s h.2)

print_int-AllPlain : (i : ℤ) → AllPlain (print_int i)
unfolding print_int
print_int-AllPlain (pos n) = AllDigits-AllPlain (print_nat n) (print_nat-AllDigits n)
print_int-AllPlain (negsuc n) = (
  (omega arith, omega arith),
  AllDigits-AllPlain (print_nat (suc n)) (print_nat-AllDigits (suc n)),
)

print_int-ne-nil : (i : ℤ) → print_int i ≢ []
unfolding print_int
print_int-ne-nil (pos n) e = print_nat-ne-nil n e
print_int-ne-nil (negsuc n) e = cc

not-contains-newline : (s : Bytes) → AllPlain s → contains s b'\n' ≡ false
unfolding contains
not-contains-newline [] h = refl
not-contains-newline (c ∷ s) h = ground (arith, not-contains-newline s)

module _ (F : Floats) where
  open F use {Float, parse_float, format_float}

  -- What `%g` and strconv.ParseFloat document: a float is printed in printable bytes, and read
  -- back from them. It holds of every float but a NaN, which no float equals.
  abbrev pub PrintsBack : Float → Type 0
  PrintsBack f =
      (format_float f ≢ []) × AllPlain (format_float f) × (parse_float (format_float f) ≡ some f)

  abbrev pub OptionPrintsBack : Option Float → Type 0
  OptionPrintsBack none = Unit
  OptionPrintsBack (some f) = PrintsBack f

  -- The text of an optional float, without its newline.
  abbrev option_text : Option Float → Bytes
  option_text none = []
  option_text (some f) = format_float f

  option_text-AllPlain : (o : Option Float) → OptionPrintsBack o → AllPlain (option_text o)
  option_text-AllPlain none h = tt
  option_text-AllPlain (some f) h = h.1

  parse_option_of_ne :
      (v : Bytes) (f : Float) → v ≢ [] → parse_float v ≡ some f → parse_option F v ≡ some (some f)
  parse_option_of_ne [] f h e = absurd (h refl)
  parse_option_of_ne (c ∷ v) f h e = ground arith

  parse_option-option_text :
      (o : Option Float) → OptionPrintsBack o → parse_option F (option_text o) ≡ some o
  parse_option-option_text none h = refl
  parse_option-option_text (some f) h = parse_option_of_ne (format_float f) f h.0 h.2

  parse_int_of_ne : (v : Bytes) (i : ℤ) → v ≢ [] → atoi v ≡ some i → parse_int F v ≡ some i
  parse_int_of_ne [] i h e = absurd (h refl)
  parse_int_of_ne (c ∷ v) i h e = e

  -- A line with a plain key that names a parameter and a plain value sets the parameter.
  parse_line_of_cut :
      (k v : Bytes) (key : ParamKey) (p q : GenerationParams Float)
      → contains k b'=' ≡ false
      → AllPlain k
      → AllPlain v
      → param_key k ≡ some key
      → set_param F key v p ≡ some q
      → parse_line F (k ++ b'=' ∷ v) p ≡ ok q
  unfolding parse_line
  parse_line_of_cut k v key p q hk pk pv e s =
      ground (arith, cut-append k v b'=' hk, trim_space-plain k pk, trim_space-plain v pv)

split_line :
    (k v rest : Bytes)
    → contains k b'\n' ≡ false
    → AllPlain v
    → split (k ++ (v ++ (codes "\n" ++ rest))) b'\n' ≡ (k ++ v) ∷ split rest b'\n'
split_line k v rest hk pv =
    rw (← append_assoc k v (codes "\n" ++ rest))
      (split-append (k ++ v) rest b'\n' (contains-append k v b'\n' hk ∙ not-contains-newline v pv))

module _ (F : Floats) where
  open F use {Float, parse_float, format_float}

  format_option-eq : (o : Option Float) → format_option F o ≡ option_text F o ++ codes "\n"
  format_option-eq none = refl
  format_option-eq (some f) = refl

  split_option_line :
      (k : Bytes) (o : Option Float) (rest : Bytes)
      → contains k b'\n' ≡ false
      → OptionPrintsBack F o
      → split (k ++ (format_option F o ++ rest)) b'\n' ≡ (k ++ option_text F o) ∷ split rest b'\n'
  split_option_line k o rest hk h =
      rw (format_option-eq o, append_assoc (option_text F o) (codes "\n") rest)
        (split_line k (option_text F o) rest hk (option_text-AllPlain F o h))

  -- What printing needs of the parameters: an int of 64 bits, and floats that are read back.
  pub record AllPrintBack (p : GenerationParams Float) : Type 0 where
    pub range : IsInt64 p.max_tokens
    pub for_temperature : OptionPrintsBack F p.temperature
    pub for_frequency : OptionPrintsBack F p.frequency_penalty
    pub for_presence : OptionPrintsBack F p.presence_penalty

  split-format_params :
      (p : GenerationParams Float)
      → AllPrintBack p
      → split (format_params F p) b'\n'
        ≡ (codes "maxTokens=" ++ print_int p.max_tokens)
          ∷ (codes "temperature=" ++ option_text F p.temperature)
          ∷ (codes "frequencyPenalty=" ++ option_text F p.frequency_penalty)
          ∷ (codes "presencePenalty=" ++ option_text F p.presence_penalty)
          ∷ []
          ∷ []
  unfolding format_params contains split
  split-format_params p h =
      split_line (codes "maxTokens=") (print_int p.max_tokens) _ refl
        (print_int-AllPlain p.max_tokens)
      ∙ ap (λ (l : List Bytes). (codes "maxTokens=" ++ print_int p.max_tokens) ∷ l)
          (split_option_line (codes "temperature=") p.temperature _ refl h.for_temperature
            ∙ ap (λ (l : List Bytes). (codes "temperature=" ++ option_text F p.temperature) ∷ l)
                (split_option_line (codes "frequencyPenalty=") p.frequency_penalty _ refl
                    h.for_frequency
                  ∙ ap
                      (λ (l : List Bytes).
                        (codes "frequencyPenalty=" ++ option_text F p.frequency_penalty) ∷ l)
                      (rw (← append-nil (format_option F p.presence_penalty)) (
                        split_option_line (codes "presencePenalty=") p.presence_penalty [] refl
                          h.for_presence))))

  set_max_tokens :
      (i : ℤ) (c : GenerationParams Float)
      → IsInt64 i
      → set_param F max_tokens (print_int i) c ≡ some (record c { max_tokens = i })
  unfolding set_param
  set_max_tokens i c lt =
      ground (arith, parse_int_of_ne F (print_int i) i (print_int-ne-nil i) (atoi-print_int i lt))

  set_temperature :
      (o : Option Float) (c : GenerationParams Float)
      → OptionPrintsBack F o
      → set_param F temperature (option_text F o) c ≡ some (record c { temperature = o })
  unfolding set_param
  set_temperature o c h = ground (arith, parse_option-option_text F o h)

  set_frequency_penalty :
      (o : Option Float) (c : GenerationParams Float)
      → OptionPrintsBack F o
      → set_param F frequency_penalty (option_text F o) c
        ≡ some (record c { frequency_penalty = o })
  unfolding set_param
  set_frequency_penalty o c h = ground (arith, parse_option-option_text F o h)

  set_presence_penalty :
      (o : Option Float) (c : GenerationParams Float)
      → OptionPrintsBack F o
      → set_param F presence_penalty (option_text F o) c ≡ some (record c { presence_penalty = o })
  unfolding set_param
  set_presence_penalty o c h = ground (arith, parse_option-option_text F o h)

  parse_lines_step :
      (line : Bytes) (rest : List Bytes) (p q : GenerationParams Float)
      → parse_line F line p ≡ ok q
      → parse_lines F (line ∷ rest) p ≡ parse_lines F rest q
  unfolding parse_lines
  parse_lines_step line rest p q e = ground arith

  -- A line for an optional float sets it.
  option_step :
      (k : Bytes) (o : Option Float) (key : ParamKey) (rest : List Bytes)
      (p q : GenerationParams Float)
      → contains k b'=' ≡ false
      → AllPlain k
      → OptionPrintsBack F o
      → param_key k ≡ some key
      → set_param F key (option_text F o) p ≡ some q
      → parse_lines F ((k ++ b'=' ∷ option_text F o) ∷ rest) p ≡ parse_lines F rest q
  option_step k o key rest p q hk pk h e s =
      parse_lines_step (k ++ b'=' ∷ option_text F o) rest p q
        (parse_line_of_cut F k (option_text F o) key p q hk pk (option_text-AllPlain F o h) e s)

  parse_lines-format_params :
      (p c0 : GenerationParams Float)
      → AllPrintBack p
      → parse_lines F
          ((codes "maxTokens=" ++ print_int p.max_tokens)
            ∷ (codes "temperature=" ++ option_text F p.temperature)
            ∷ (codes "frequencyPenalty=" ++ option_text F p.frequency_penalty)
            ∷ (codes "presencePenalty=" ++ option_text F p.presence_penalty)
            ∷ []
            ∷ [])
          c0
        ≡ ok p
  unfolding contains param_key bytes_beq
  parse_lines-format_params p c0 h =
      let c1 : GenerationParams Float = record c0 { max_tokens = p.max_tokens } in
      let c2 : GenerationParams Float = record c1 { temperature = p.temperature } in
      let c3 : GenerationParams Float = record c2 { frequency_penalty = p.frequency_penalty } in
      parse_lines_step (codes "maxTokens=" ++ print_int p.max_tokens) _ c0 c1 (
        parse_line_of_cut F (codes "maxTokens") (print_int p.max_tokens) max_tokens c0 c1 refl
          (omega arith) (print_int-AllPlain p.max_tokens) refl
          (set_max_tokens p.max_tokens c0 h.range))
      ∙ option_step (codes "temperature") p.temperature temperature _ c1 c2 refl (omega arith)
          h.for_temperature refl (set_temperature p.temperature c1 h.for_temperature)
      ∙ option_step (codes "frequencyPenalty") p.frequency_penalty frequency_penalty _ c2 c3 refl
          (omega arith) h.for_frequency refl
          (set_frequency_penalty p.frequency_penalty c2 h.for_frequency)
      ∙ option_step (codes "presencePenalty") p.presence_penalty presence_penalty _ c3 p refl
          (omega arith) h.for_presence refl
          (set_presence_penalty p.presence_penalty c3 h.for_presence)
      ∙ (unfold parse_lines parse_line cut in refl)

  -- Reading what was printed gives the parameters, whatever the current ones are, if the int
  -- has 64 bits and each float is read back from its print.
  pub parse_params-format_params :
      (p current : GenerationParams Float)
      → AllPrintBack p
      → parse_params F (format_params F p) current ≡ ok p
  unfolding parse_params
  parse_params-format_params p current h =
      rw (split-format_params p h) (parse_lines-format_params p current h)
