-- ===== src/Base/Word.antt =====
-- The unsigned C types as native numbers with their wrap-around written out.
use Prim.Native.Nat.{ℕ, ◌+◌, ◌-◌, ◌*◌, ◌%◌, ◌^◌}

-- The conversions to uint8_t, uint16_t, uint32_t and uint64_t.
abbrev pub to_u8 : ℕ → ℕ
to_u8 x = x % 2 ^ 8

abbrev pub to_u16 : ℕ → ℕ
to_u16 x = x % 2 ^ 16

abbrev pub to_u32 : ℕ → ℕ
to_u32 x = x % 2 ^ 32

abbrev pub to_u64 : ℕ → ℕ
to_u64 x = x % 2 ^ 64

abbrev pub add64 : ℕ → ℕ → ℕ
add64 a b = (a + b) % 2 ^ 64

abbrev pub sub64 : ℕ → ℕ → ℕ
sub64 a b = (a + 2 ^ 64 - b) % 2 ^ 64

abbrev pub mul64 : ℕ → ℕ → ℕ
mul64 a b = (a * b) % 2 ^ 64
