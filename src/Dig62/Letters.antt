-- ===== src/Dig62/Letters.antt =====
-- base/src/utils/dig62.rs: the dictionaries, and that reading the letters of a text gives back the
-- groups of nine binary digits which they were written for.
use pigs.Prelude.{
  ℕ, ◌+◌, ◌*◌, ◌/◌, ◌%◌, ◌^◌, ◌<◌, Bool, true, false, not, ◌&&◌, none, some, List, [], ◌∷◌, ◌++◌,
  ltb, ◌==◌, if◌then◌else◌, length, get_elem?, ◌≡◌, refl, arith, ap, ◌∙◌, subst, check_below,
  check_below_lem, Bool-cases, inl, inr, join,
}
use mathlib.Core.List.{append-nil}
use pigs.Dig62.{
  ok, d_dic, a_dic, index_of, is_ascii_digit, from_bin, format_bin, en_chunks, de_letter, de_chars,
}
use pigs.Dig62.Bits.{AllLength, from_bin-lt, format_bin-from_bin}

-- The dictionary finds its `i`-th character again, which is a digit exactly if `digit` says so.
abbrev names : List ℕ → Bool → ℕ → Bool
names dic digit i = elim (get_elem? dic i) [
  | none ↦ false
  | some c ↦ elim (index_of c dic) [
    | none ↦ false
    | some j ↦ j == i && (if is_ascii_digit c then digit else not digit)
  ]
]

abbrev pub Named : List ℕ → Bool → ℕ → Type 0
Named dic digit i =
    (c : ℕ) × (get_elem? dic i ≡ some c) × (index_of c dic ≡ some i) × (is_ascii_digit c ≡ digit)

Named-of-names :
    (dic : List ℕ) (digit : Bool) (i : ℕ) → names dic digit i ≡ true → Named dic digit i
Named-of-names dic digit i h = ground arith

letter_table : check_below (names a_dic false) 52 ≡ true
unfolding check_below index_of
letter_table = refl

digit_table : check_below (names d_dic true) 10 ≡ true
unfolding check_below index_of
digit_table = refl

pub letter_at : (i : ℕ) → i < 52 → Named a_dic false i
letter_at i h = Named-of-names a_dic false i (check_below_lem (names a_dic false) 52 letter_table h)

pub digit_at : (i : ℕ) → i < 10 → Named d_dic true i
digit_at i h = Named-of-names d_dic true i (check_below_lem (names d_dic true) 10 digit_table h)

de_letter_lem :
    (circle c i val : ℕ)
    → index_of c a_dic ≡ some i
    → circle * 52 + i ≡ val
    → de_letter circle c ≡ ok (format_bin 9 val)
unfolding de_letter
de_letter_lem circle c i val at e = rw (at, e)

-- A letter without a digit in front, and one with.
de_plain :
    (c : ℕ) (cs : List ℕ) (b rest : List Bool)
    → is_ascii_digit c ≡ false
    → de_letter 0 c ≡ ok b
    → de_chars cs ≡ ok rest
    → de_chars (c ∷ cs) ≡ ok (b ++ rest)
unfolding de_chars
de_plain c [] b [] plain e h = rw (plain, e, append-nil)
de_plain c [] b (x ∷ rest) plain e h = absurd (ground (arith, h))
de_plain c (c' ∷ cs) b rest plain e h = rw (plain, e, h)

de_circled :
    (d c circle : ℕ) (cs : List ℕ) (b rest : List Bool)
    → is_ascii_digit d ≡ true
    → index_of d d_dic ≡ some circle
    → de_letter circle c ≡ ok b
    → de_chars cs ≡ ok rest
    → de_chars (d ∷ c ∷ cs) ≡ ok (b ++ rest)
unfolding de_chars
de_circled d c circle cs b rest digit at e h = rw (digit, at, e, h)

abbrev pub ReadsBack : List (List Bool) → Type 0
ReadsBack gs = (cs : List ℕ) × (en_chunks gs ≡ ok cs) × (de_chars cs ≡ ok (join gs))

ReadsBack-cons :
    (g : List Bool) (gs : List (List Bool)) → length g ≡ 9 → ReadsBack gs → ReadsBack (g ∷ gs)
unfolding en_chunks
ReadsBack-cons g gs e (cs, written, read) =
    let val = from_bin g in
    let small : val < 512 = subst (λ n. val < 2 ^ n) e (from_bin-lt g) in
    let (c, letter, at, plain) = letter_at (val % 52) (omega arith) in
    elim (Bool-cases (ltb 0 (val / 52))) [
      | inl circled ↦
          let (d, digit, at', is_digit) = digit_at (val / 52) (omega arith) in
          (
            d ∷ c ∷ cs,
            rw (letter, circled, digit, written),
            de_circled d c (val / 52) cs g (join gs) is_digit at'
                (de_letter_lem (val / 52) c (val % 52) val at (omega arith)
                  ∙ ap ok (format_bin-from_bin g e))
                read,
          )
      | inr small_val ↦ (
        c ∷ cs,
        rw (letter, small_val, written),
        de_plain c cs g (join gs) plain
            (de_letter_lem 0 c (val % 52) val at (ground arith) ∙ ap ok (format_bin-from_bin g e))
            read,
      )
    ]

-- Groups of nine binary digits are written without a panic, and read back.
pub en_chunks-ReadsBack : (gs : List (List Bool)) → AllLength 9 gs → ReadsBack gs
unfolding en_chunks de_chars
en_chunks-ReadsBack [] all = ([], refl, refl)
en_chunks-ReadsBack (g ∷ gs) all = ReadsBack-cons g gs all.0 (en_chunks-ReadsBack gs all.1)
