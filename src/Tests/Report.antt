-- ===== src/Tests/Report.antt =====
-- report at concrete bodies and byte counts; the tests of report/print_test.go among them.
use plt.Base.{
  ℕ, ◌^◌, Text, ◌+◌, ◌*◌, ◌/◌, ◌≤◌, ◌<◌, ◌≡◌, refl, ◌⊎◌, true, [], ◌∷◌, ◌++◌, arith, pos, codes,
  decimal,
}
use plt.Loadgen.Percent.{bits, round_to, round_53}
use plt.Report.Utf8.{valid}
use plt.Report.PeekBody.{peek_body, non_printable, cut_character_is_binary}
use plt.Report.ByteSize.{kilobyte, megabyte, byte_size}
use plt.Report.Units.{byte_size_near, IsTenths, IsUnit}

peek_cut : peek_body (codes "123456789012345") 10 ≡ codes "1234567890..."
unfolding peek_body valid
peek_cut = refl

peek_whole : peek_body (codes "123456789") 10 ≡ codes "123456789"
unfolding peek_body valid
peek_whole = refl

peek_binary : peek_body (0xed ∷ 0xa0 ∷ 0x80 ∷ 0x80 ∷ []) 10 ≡ non_printable
unfolding peek_body valid
peek_binary = refl

size_kilobyte : byte_size (pos kilobyte) ≡ codes "1KB"
unfolding byte_size decimal round_53 round_to bits
size_kilobyte = refl

size_megabyte : byte_size (pos (megabyte + megabyte / 2)) ≡ codes "1.5MB"
unfolding byte_size decimal round_53 round_to bits
size_megabyte = refl

cut_character_is_binary_example :
    (valid (codes "ab" ++ 0xc3 ∷ 0xa9 ∷ codes "c") ≡ true)
    × (peek_body (codes "ab" ++ 0xc3 ∷ 0xa9 ∷ codes "c") 3 ≡ non_printable)
unfolding valid
cut_character_is_binary_example =
    cut_character_is_binary (codes "ab") 0xc3 0xa9 (codes "c") refl refl (omega arith) (omega arith)
      (omega arith) (omega arith)

byte_size_near_example :
    (u : ℕ) × (t : ℕ) × (digits : Text) × (letters : Text) × (byte_size (pos 1536)
      ≡ digits ++ letters)
    × IsTenths t digits
    × IsUnit u letters
    × (20 * 1536 ≤ 2 * (t * u) + u)
    × (2 * (t * u) ≤ 20 * 1536 + u)
    × ((u ≤ 1536) ⊎ ((1536 < 2 ^ 10) × (u ≡ 1)))
    × (t ≤ 10 * 2 ^ 10)
byte_size_near_example = byte_size_near 1536 (omega arith)
