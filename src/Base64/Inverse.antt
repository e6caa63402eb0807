-- ===== src/Base64/Inverse.antt =====
-- A strict decoding of a text with no line ends encodes to that text; lengths.
use kal.Base.{
  ℕ, suc, ◌+◌, ◌*◌, ◌/◌, ◌%◌, ◌≤◌, ◌<◌, Bool, true, not, Option, none, some, List, [], ◌∷◌, map,
  ◌≡◌, refl, arith, Text, if◌then◌else◌, ◌==◌, length, All, ap, ==_iff, some-injective, Bool-cases,
  inl, inr, sym,
}
use kal.Base64.{
  Alphabet, digit, undigit, group, encode, before, pack, is_newline, push, digits, packed, decode,
  IsByte, IsDigit,
}
use kal.Base64.Laws.{IsAlphabet, OneLine}

push-inv :
    (o : Option ℕ) (r : Option (List ℕ)) {ds : List ℕ}
    → push o r ≡ some ds
    → (d : ℕ) × (rest : List ℕ) × (o ≡ some d) × (r ≡ some rest) × (ds ≡ d ∷ rest)
push-inv none r h = cc
push-inv (some d) none h = cc
push-inv (some d) (some rest) h = (d, rest, refl, refl, cc)

digits-inv :
    (al : Alphabet) (s : Text) {ds : List ℕ}
    → IsAlphabet al
    → OneLine s
    → digits al s ≡ some ds
    → (map (digit al) ds ≡ s) × All IsDigit ds
unfolding digits
digits-inv al [] {ds} a h e = let q : [] ≡ ds = cc in rw (← q) (refl, tt)
digits-inv al (c ∷ s) {ds} a h e =
    let (d, rest, ed, er, q) =
      push-inv (undigit al c) (digits al s) {ds = ds} (rw (h.0, digits) at e) in
    let (same, all) = digits-inv al s {ds = rest} a h.1 er in
    rw q (rw ((a.writes c d ed).0, same), ((a.writes c d ed).1, all))

-- As many digits as characters: no line end was skipped.
pub digits-length-le :
    (al : Alphabet) (s : Text) {ds : List ℕ} → digits al s ≡ some ds → length ds ≤ length s
unfolding digits
digits-length-le al [] {ds} e = let q : [] ≡ ds = cc in rw (← q) (omega arith)
digits-length-le al (c ∷ s) {ds} e = elim (Bool-cases (is_newline c)) [
  | inl skipped ↦ omega (arith, digits-length-le al s {ds = ds} (rw (skipped, digits) at e))
  | inr kept ↦
      let (d, rest, ed, er, q) =
        push-inv (undigit al c) (digits al s) {ds = ds} (rw (kept, digits) at e) in
      rw q (omega (arith, digits-length-le al s {ds = rest} er))
]

pub digits-OneLine :
    (al : Alphabet) (s : Text) {ds : List ℕ}
    → digits al s ≡ some ds
    → length ds ≡ length s
    → OneLine s
unfolding digits
digits-OneLine al [] e l = tt
digits-OneLine al (c ∷ s) {ds} e l = elim (Bool-cases (is_newline c)) [
  | inl skipped ↦
      absurd (omega (arith, digits-length-le al s {ds = ds} (rw (skipped, digits) at e)))
  | inr kept ↦
      let (d, rest, ed, er, q) =
        push-inv (undigit al c) (digits al s) {ds = ds} (rw (kept, digits) at e) in
      (kept, digits-OneLine al s {ds = rest} er (omega (arith, ap length q)))
]

before-inv :
    (x y z : ℕ) (r : Option (List ℕ)) {bytes : List ℕ}
    → before (x ∷ y ∷ z ∷ []) r ≡ some bytes
    → (rest : List ℕ) × (r ≡ some rest) × (bytes ≡ x ∷ y ∷ z ∷ rest)
before-inv x y z none h = cc
before-inv x y z (some rest) h = (rest, refl, cc)

-- Trailing bits that a strict decoding has found to be zero.
canonical-inv :
    (n : ℕ) {xs bytes : List ℕ}
    → (if not (n == 0) then none else some xs) ≡ some bytes
    → (n ≡ 0) × (bytes ≡ xs)
canonical-inv n {xs} {bytes} h = elim (Bool-cases (n == 0)) [
  | inl e ↦ ((==_iff n 0).0 e, sym (some-injective xs bytes (rw e at h)))
  | inr e ↦ absurd (cc (rw e at h))
]

abbrev Packs : List ℕ → List ℕ → Type 0
Packs ds bytes = (group bytes ≡ ds) × All IsByte bytes

two-Packs : (s t : ℕ) → s < 64 → t < 64 → t % 16 ≡ 0 → Packs (s ∷ t ∷ []) ((s * 4 + t / 16) ∷ [])
unfolding group
two-Packs s t hs ht z =
    let first : (s * 4 + t / 16) / 4 ≡ s = omega arith in
    let second : (s * 4 + t / 16) % 4 * 16 ≡ t = omega arith in
    (cc (first, second), (omega arith, tt))

three-Packs :
    (s t u : ℕ)
    → s < 64
    → t < 64
    → u < 64
    → u % 4 ≡ 0
    → Packs (s ∷ t ∷ u ∷ []) ((s * 4 + t / 16) ∷ (t % 16 * 16 + u / 4) ∷ [])
unfolding group
three-Packs s t u hs ht hu z =
    let first : (s * 4 + t / 16) / 4 ≡ s = omega arith in
    let second : (s * 4 + t / 16) % 4 * 16 + (t % 16 * 16 + u / 4) / 16 ≡ t = omega arith in
    let third : (t % 16 * 16 + u / 4) % 16 * 4 ≡ u = omega arith in
    (cc (first, second, third), (omega arith, (omega arith, tt)))

four-Packs :
    (s t u v : ℕ) (r rest : List ℕ)
    → s < 64
    → t < 64
    → u < 64
    → v < 64
    → Packs r rest
    → Packs (s ∷ t ∷ u ∷ v ∷ r) ((s * 4 + t / 16) ∷ (t % 16 * 16 + u / 4) ∷ (u % 4 * 64 + v) ∷ rest)
unfolding group
four-Packs s t u v r rest hs ht hu hv (same, all) =
    let first : (s * 4 + t / 16) / 4 ≡ s = omega arith in
    let second : (s * 4 + t / 16) % 4 * 16 + (t % 16 * 16 + u / 4) / 16 ≡ t = omega arith in
    let third : (t % 16 * 16 + u / 4) % 16 * 4 + (u % 4 * 64 + v) / 64 ≡ u = omega arith in
    let fourth : (u % 4 * 64 + v) % 64 ≡ v = omega arith in
    (cc (first, second, third, fourth, same), (omega arith, (omega arith, (omega arith, all))))

pub pack-inv :
    (ds : List ℕ) {bytes : List ℕ} → All IsDigit ds → pack true ds ≡ some bytes → Packs ds bytes
unfolding pack group
pack-inv [] {bytes} h e = let q : [] ≡ bytes = cc in rw (← q) (refl, tt)
pack-inv (s ∷ []) h e = cc
pack-inv (s ∷ t ∷ []) {bytes} h e =
    let (z, q) = canonical-inv (t % 16) {bytes = bytes} e in rw q (two-Packs s t h.0 h.1.0 z)
pack-inv (s ∷ t ∷ u ∷ []) {bytes} h e =
    let (z, q) = canonical-inv (u % 4) {bytes = bytes} e in
    rw q (three-Packs s t u h.0 h.1.0 h.1.1.0 z)
pack-inv (s ∷ t ∷ u ∷ v ∷ r) {bytes} h e =
    let (rest, er, q) =
      before-inv (s * 4 + t / 16) (t % 16 * 16 + u / 4) (u % 4 * 64 + v) (pack true r)
        {bytes = bytes} e in
    rw q (
      four-Packs s t u v r rest h.0 h.1.0 h.1.1.0 h.1.1.1.0
        (pack-inv r {bytes = rest} h.1.1.1.1 er))

packed-inv :
    (strict : Bool) (o : Option (List ℕ)) {bytes : List ℕ}
    → packed strict o ≡ some bytes
    → (ds : List ℕ) × (o ≡ some ds) × (pack strict ds ≡ some bytes)
packed-inv strict none h = cc
packed-inv strict (some ds) h = (ds, refl, h)

-- A strict decoding of a text with no line ends: the text is the encoding of the bytes.
pub decode-inv :
    (al : Alphabet) (s : Text) {bytes : List ℕ}
    → IsAlphabet al
    → OneLine s
    → decode true al s ≡ some bytes
    → (encode al bytes ≡ s) × All IsByte bytes
unfolding decode encode
decode-inv al s {bytes} a h e =
    let (ds, ed, ep) = packed-inv true (digits al s) {bytes = bytes} e in
    let (same, all) = digits-inv al s {ds = ds} a h ed in
    let (g, b) = pack-inv ds {bytes = bytes} all ep in (rw g same, b)

pub decode-digits :
    (al : Alphabet) (s : Text) {bytes : List ℕ}
    → decode true al s ≡ some bytes
    → (ds : List ℕ) × (digits al s ≡ some ds) × (pack true ds ≡ some bytes)
unfolding decode
decode-digits al s {bytes} e = packed-inv true (digits al s) {bytes = bytes} e

pub length-group : (bytes : List ℕ) → length (group bytes) ≡ (4 * length bytes + 2) / 3
unfolding group
length-group [] = omega arith
length-group (a ∷ []) = omega arith
length-group (a ∷ b ∷ []) = omega arith
length-group (a ∷ b ∷ c ∷ r) = omega (arith, length-group r)

pub digits-IsDigit :
    (al : Alphabet) (s : Text) {ds : List ℕ}
    → IsAlphabet al
    → digits al s ≡ some ds
    → All IsDigit ds
unfolding digits
digits-IsDigit al [] {ds} a e = let q : [] ≡ ds = cc in rw (← q) tt
digits-IsDigit al (c ∷ s) {ds} a e = elim (Bool-cases (is_newline c)) [
  | inl skipped ↦ digits-IsDigit al s {ds = ds} a (rw (skipped, digits) at e)
  | inr kept ↦
      let (d, rest, ed, er, q) =
        push-inv (undigit al c) (digits al s) {ds = ds} (rw (kept, digits) at e) in
      rw q ((a.writes c d ed).1, digits-IsDigit al s {ds = rest} a er)
]

pub length-map : (f : ℕ → ℕ) (xs : List ℕ) → length (map f xs) ≡ length xs
length-map f [] = refl
length-map f (x ∷ xs) = ap suc (length-map f xs)
