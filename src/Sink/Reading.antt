-- ===== src/Sink/Reading.antt =====
-- base/src/net/rw.rs: what a reader has from the bytes of encoded payloads.
use pigs.Prelude.{
  ℕ, zero, suc, ◌+◌, ◌*◌, ◌≤◌, true, List, [], ◌∷◌, ◌++◌, leb, length, length-append, take, drop,
  Option, none, some, ◌≡◌, ◌≢◌, refl, sym, ap, ap₂, ◌∙◌, arith, Bool-cases, inl, inr, ◌⊎◌, All,
  le→leb,
}
use mathlib.Core.List.{append_assoc, append-nil}
use pigs.Packet.{ok, EncodedPacket, encode_u16_be}
use pigs.Packet.Framing.{read_frame, encode_u16_be-IsFrame}
use pigs.Sink.Bytes.{packet_bytes, payload_bytes}

abbrev pub IsPrefix : {A : Type 0} → List A → List A → Type 0
IsPrefix {A} xs ys = (rest : List A) × (ys ≡ xs ++ rest)

split_append :
    (xs ys frame rest : List ℕ)
    → xs ++ ys ≡ frame ++ rest
    → ((s : List ℕ) × (xs ≡ frame ++ s) × (s ++ ys ≡ rest))
      ⊎ ((x : ℕ) × (r : List ℕ) × (frame ≡ xs ++ x ∷ r))
split_append xs ys [] rest e = inl (xs, refl, e)
split_append [] ys (f ∷ frame) rest e = inr (f, frame, refl)
split_append (x ∷ xs) ys (f ∷ frame) rest e =
    let head : x ≡ f = cc e in
    let tail : xs ++ ys ≡ frame ++ rest = cc e in
    elim (split_append xs ys frame rest tail) [
      | inl (s, left, right) ↦ inl (s, ap₂ ◌∷◌ head left, right)
      | inr (y, r, left) ↦ inr (y, r, ap₂ ◌∷◌ (sym head) left)
    ]

take-append_le : (n : ℕ) (xs ys : List ℕ) → n ≤ length xs → take n (xs ++ ys) ≡ take n xs
take-append_le zero xs ys h = refl
take-append_le (suc n) [] ys h = absurd (omega arith)
take-append_le (suc n) (x ∷ xs) ys h = ap (λ l. x ∷ l) (take-append_le n xs ys (omega arith))

drop-append_le : (n : ℕ) (xs ys : List ℕ) → n ≤ length xs → drop n (xs ++ ys) ≡ drop n xs ++ ys
drop-append_le zero xs ys h = refl
drop-append_le (suc n) [] ys h = absurd (omega arith)
drop-append_le (suc n) (x ∷ xs) ys h = drop-append_le n xs ys (omega arith)

abbrev with_more : List ℕ → Option (List ℕ × List ℕ) → Option (List ℕ × List ℕ)
with_more more none = none
with_more more (some r) = some (r.0, r.1 ++ more)

-- A frame that can be read is read whatever follows.
read_frame-append :
    (bytes payload rest more : List ℕ)
    → read_frame bytes ≡ some (payload, rest)
    → read_frame (bytes ++ more) ≡ some (payload, rest ++ more)
unfolding read_frame
read_frame-append [] payload rest more e = absurd (ground (arith, e))
read_frame-append (a ∷ []) payload rest more e = absurd (ground (arith, e))
read_frame-append (a ∷ b ∷ bytes) payload rest more e =
    let n = a * 256 + b in
    elim (Bool-cases (leb n (length bytes))) [
      | inl fits ↦
          let short : n ≤ length bytes = ground arith in
          let fits_too : leb n (length (bytes ++ more)) ≡ true =
            le→leb _ _ (let l = length-append bytes more in omega arith) in
          let same : some (take n bytes, drop n bytes) ≡ some (payload, rest) =
            ground (arith, e, fits) in
          rw (fits_too, take-append_le n bytes more short, drop-append_le n bytes more short)
            (ap (with_more more) same)
      | inr long ↦ absurd (ground (arith, e, long))
    ]

-- The payloads that a reader has from the bytes, with fuel for the frames.
abbrev pub read_next : (List ℕ → List (List ℕ)) → Option (List ℕ × List ℕ) → List (List ℕ)
read_next next none = []
read_next next (some r) = r.0 ∷ next r.1

unfoldable pub read_all : ℕ → List ℕ → List (List ℕ)
read_all zero bytes = []
read_all (suc fuel) bytes = read_next (read_all fuel) (read_frame bytes)

abbrev pub IsEncoded : List ℕ → Type 0
IsEncoded payload = (p : EncodedPacket) × (encode_u16_be payload ≡ ok p)

-- The packet of a payload is a frame.
frame_of :
    (payload rest : List ℕ)
    → IsEncoded payload
    → read_frame (packet_bytes (encode_u16_be payload) ++ rest) ≡ some (payload, rest)
frame_of payload rest (p, encoded) = elim (encode_u16_be-IsFrame payload) [
  | inl (long, no_packet) ↦ absurd (ground (arith, no_packet, encoded))
  | inr (fits, (q, made, reads)) ↦ ap (λ o. read_frame (packet_bytes o ++ rest)) made ∙ reads rest
]

no_cons : (rest more : List ℕ) (x : ℕ) → rest ++ x ∷ more ≢ []
no_cons [] more x e = absurd (ground (arith, e))
no_cons (y ∷ rest) more x e = absurd (ground (arith, e))

-- From a part of a frame a reader has nothing yet.
part_of_frame :
    (payload bytes : List ℕ) (x : ℕ) (more : List ℕ)
    → IsEncoded payload
    → packet_bytes (encode_u16_be payload) ≡ bytes ++ x ∷ more
    → read_frame bytes ≡ none
part_of_frame payload bytes x more encoded e = go (read_frame bytes) refl
  where
    whole : read_frame (bytes ++ x ∷ more) ≡ some (payload, [])
    whole =
        sym (ap read_frame (append-nil (packet_bytes (encode_u16_be payload)) ∙ e))
        ∙ frame_of payload [] encoded

    go : (o : Option (List ℕ × List ℕ)) → read_frame bytes ≡ o → read_frame bytes ≡ none
    go none read = read
    go (some (q, rest)) read =
        let longer = read_frame-append bytes q rest (x ∷ more) read in
        let nothing : rest ++ x ∷ more ≡ [] = cc (longer, whole) in
        absurd (no_cons rest more x nothing)

pub read_all-prefix :
    (fuel : ℕ) (payloads : List (List ℕ)) (sent rest : List ℕ)
    → All IsEncoded payloads
    → sent ++ rest ≡ payload_bytes encode_u16_be payloads
    → IsPrefix (read_all fuel sent) payloads
unfolding read_all read_frame
read_all-prefix zero payloads sent rest encoded e = (payloads, refl)
read_all-prefix (suc fuel) [] [] rest encoded e = ([], refl)
read_all-prefix (suc fuel) [] (x ∷ sent) rest encoded e = absurd (ground (arith, e))
read_all-prefix (suc fuel) (payload ∷ payloads) sent rest encoded e =
    elim (split_append sent rest (packet_bytes (encode_u16_be payload))
      (payload_bytes encode_u16_be payloads) e) [
        | inl (s, left, right) ↦
            let read : read_frame sent ≡ some (payload, s) =
              ap read_frame left ∙ frame_of payload s encoded.0 in
            let (more, same) = read_all-prefix fuel payloads s rest encoded.1 right in
            rw read (more, ap (λ l. payload ∷ l) same)
        | inr (x, more, part) ↦
            rw (part_of_frame payload sent x more encoded.0 part) (payload ∷ payloads, refl)
      ]

pub read_all-exact :
    (payloads : List (List ℕ)) (rest : List ℕ)
    → All IsEncoded payloads
    → read_all (length payloads) (payload_bytes encode_u16_be payloads ++ rest) ≡ payloads
unfolding read_all
read_all-exact [] rest encoded = refl
read_all-exact (payload ∷ payloads) rest encoded =
    let front = packet_bytes (encode_u16_be payload) in
    let others = payload_bytes encode_u16_be payloads in
    ap (λ b. read_next (read_all (length payloads)) (read_frame b)) (append_assoc front others rest)
    ∙ ap (read_next (read_all (length payloads))) (frame_of payload (others ++ rest) encoded.0)
    ∙ ap (λ l. payload ∷ l) (read_all-exact payloads rest encoded.1)
