-- ===== src/Dig62/Tests.antt =====
-- base/src/utils/dig62.rs: runs of the codec.
use pigs.Prelude.{ℕ, List, ◌≡◌, refl, codes, All}
use pigs.Dig62.RoundTrip.{IsDigit, de-en}
use pigs.Dig62.{
  ok, err, panic, illegal_header, index_of, to_digit, from_digit, bit_len, bits, format_bin,
  from_bin, chunks, en_digits, en_chunks, en, de_letter, de_chars, de_chunks, de, ◌>>=◌,
}

program : Unit {0}
unfolding index_of to_digit from_digit bit_len bits format_bin from_bin chunks en_digits en_chunks
    en de_letter de_chars de_chunks de
program = tt

back : (en (codes "13901234567890123456") >>= de) ≡ ok (codes "13901234567890123456")
unfolding program
back = refl

odd : (en (codes "00700") >>= de) ≡ ok (codes "00700")
unfolding program
odd = refl

-- A text that `en` never writes makes `de` panic: its first four bits are 1010.
malformed : de (codes "q6c") ≡ panic
unfolding program
malformed = refl

bad_header : de (codes "5q") ≡ err illegal_header
unfolding program
bad_header = refl

digits-IsDigit : All IsDigit (codes "90210")
digits-IsDigit = (refl, (refl, (refl, (refl, (refl, tt)))))

de-en_example : (t : List ℕ) × (en (codes "90210") ≡ ok t) × (de t ≡ ok (codes "90210"))
de-en_example = de-en (codes "90210") digits-IsDigit

letters_are_no_digits : ¬ All IsDigit (codes "12a")
letters_are_no_digits h = cc (h.1.1.0)
