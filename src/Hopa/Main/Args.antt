-- ===== src/Hopa/Main/Args.antt =====
-- parse_args of hopa_cp.c, with strtoull of the C library, over arguments as lists of bytes. What it
-- prints is left out.
use mathlib.Core.Path.{subst}
use repath.Base.{
  ℕ, ◌+◌, ◌-◌, ◌*◌, ◌^◌, ◌%◌, ◌≡◌, ◌↔◌, refl, Bool, true, false, ◌&&◌, ◌||◌, List, [], ◌∷◌, ltb,
  leb, ◌==◌, if◌then◌else◌, to_u32, arith, length, Bool-cases, inl, inr,
}

abbrev pub Bytes : Type 0
Bytes = List ℕ

-- isspace
is_space : ℕ → Bool
is_space c = c == b' ' || (leb 9 c && leb c 13)

is_digit : ℕ → Bool
is_digit c = leb b'0' c && leb c b'9'

-- The number that the digits from here on spell behind `value`.
read_digits : ℕ → Bytes → ℕ
unfolding is_digit
read_digits value [] = value
read_digits value (c ∷ s) = elim (is_digit c) [
  | true ↦ read_digits (value * 10 + (c - b'0')) s
  | false ↦ value
]

-- A value that does not fit is ULLONG_MAX; one behind a minus sign is negated as unsigned.
clamp : ℕ → ℕ
clamp v = if ltb v (2 ^ 64) then v else 2 ^ 64 - 1

negated : ℕ → ℕ
negated v = if ltb v (2 ^ 64) then (2 ^ 64 - v) % 2 ^ 64 else 2 ^ 64 - 1

read_signed : Bytes → ℕ
unfolding read_digits clamp negated
read_signed [] = 0
read_signed (c ∷ s) =
    if c == b'+'
    then clamp (read_digits 0 s)
    else if c == b'-'
    then negated (read_digits 0 s)
    else clamp (read_digits 0 (c ∷ s))

-- strtoull(s, NULL, 10)
pub strtoull : Bytes → ℕ
unfolding is_space read_signed
strtoull [] = 0
strtoull (c ∷ s) = elim (is_space c) [ true ↦ strtoull s | false ↦ read_signed (c ∷ s) ]

-- strcmp(s, t) == 0
pub same : Bytes → Bytes → Bool
same [] [] = true
same [] (c ∷ t) = false
same (c ∷ s) [] = false
same (c ∷ s) (e ∷ t) = c == e && same s t

abbrev pub sender_option : Bytes
sender_option = b'-' ∷ b's' ∷ []

abbrev pub help_option : Bytes
help_option = b'-' ∷ b'h' ∷ []

-- How parse_args ends: with struct hopa_param, whose one field is the bit pattern of the int
-- is_sender, or by exit with EXIT_SUCCESS or EXIT_FAILURE.
pub data Parsed : Type 0 where
  params : (is_sender : ℕ) → Parsed
  exit_success : Parsed
  exit_failure : Parsed

-- The loop over argv[1], argv[2], …; the value strtoull returns is cut to an int.
pub parse_args : ℕ → List Bytes → Parsed
unfolding strtoull same
parse_args is_sender [] = params is_sender
parse_args is_sender (arg ∷ []) =
    if length arg == 2 && same arg sender_option
    then exit_failure
    else if length arg == 2 && same arg help_option
    then exit_success
    else exit_failure
parse_args is_sender (arg ∷ value ∷ args) =
    let rest = parse_args (to_u32 (strtoull value)) args in
    if length arg == 2 && same arg sender_option
    then rest
    else if length arg == 2 && same arg help_option
    then exit_success
    else exit_failure

-- The command lines that are accepted: any number of options -s with a value; the last one counts.
pub data Accepts : ℕ → List Bytes → ℕ → Type 0 where
  end : (is_sender : ℕ) → Accepts is_sender [] is_sender
  sender :
      (is_sender : ℕ) (arg value : Bytes) (args : List Bytes) (final : ℕ)
      → arg ≡ sender_option
      → Accepts (to_u32 (strtoull value)) args final
      → Accepts is_sender (arg ∷ value ∷ args) final

same_refl : (s : Bytes) → same s s ≡ true
unfolding same
same_refl [] = refl
same_refl (c ∷ s) = ground (arith, same_refl s)

eq_of_same : (s t : Bytes) → same s t ≡ true → s ≡ t
unfolding same
eq_of_same [] [] h = refl
eq_of_same [] (c ∷ t) h = cc
eq_of_same (c ∷ s) [] h = cc
eq_of_same (c ∷ s) (e ∷ t) h = ground (arith, eq_of_same s t)

parse_args_complete :
    (is_sender : ℕ) (args : List Bytes) (final : ℕ)
    → Accepts is_sender args final
    → parse_args is_sender args ≡ params final
unfolding parse_args
parse_args_complete is_sender args final (end _) = refl
parse_args_complete is_sender args final (sender _ arg value rest _ e a) =
    ground
      (arith, same_refl sender_option, parse_args_complete (to_u32 (strtoull value)) rest final a)

params-injective : {a b : ℕ} → params a ≡ params b → a ≡ b
params-injective h = ground arith

parse_args_sound :
    (is_sender : ℕ) (args : List Bytes) (final : ℕ)
    → parse_args is_sender args ≡ params final
    → Accepts is_sender args final
unfolding parse_args
parse_args_sound is_sender [] final h =
    subst (Accepts is_sender []) (params-injective h) (end is_sender)
parse_args_sound is_sender (arg ∷ []) final h = absurd (ground arith)
parse_args_sound is_sender (arg ∷ value ∷ args) final h =
    elim (Bool-cases (same arg sender_option)) [
      | inl e ↦ sender is_sender arg value args final (eq_of_same arg sender_option e) (
          parse_args_sound (to_u32 (strtoull value)) args final
            (ground (arith, eq_of_same arg sender_option e)))
      | inr e ↦ absurd (ground arith)
    ]

-- parse_args returns parameters exactly for a sequence of -s options with values, and then those
-- of the last one, or what is_sender was before if there is none.
pub parse_args-Accepts :
    (is_sender : ℕ) (args : List Bytes) (final : ℕ)
    → (parse_args is_sender args ≡ params final) ↔ Accepts is_sender args final
parse_args-Accepts is_sender args final =
    (parse_args_sound is_sender args final, parse_args_complete is_sender args final)
