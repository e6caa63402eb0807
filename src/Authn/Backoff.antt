-- ===== src/Authn/Backoff.antt =====
-- authn/backoff.go: the reject-until window after the nth failure.
use kal.Base.{
  ℕ, zero, suc, ◌-◌, ◌*◌, ◌^◌, ◌≤◌, ◌<◌, false, ◌≡◌, refl, arith, ap, Text, codes, text_eq,
  if◌then◌else◌, ltb, leb, Bool-cases, inl, inr, sym, ◌∙◌, ◌↔◌, ltb→lt, lt→ltb,
}
use kal.Authz.Directive.{second}
use native.Mathlib.Nat.{pow-le-pow_right}

abbrev pub scope_user : Text
scope_user = codes "user"

abbrev pub scope_ip : Text
scope_ip = codes "ip"

abbrev pub user_free_failures : ℕ
user_free_failures = 1

abbrev pub ip_free_failures : ℕ
ip_free_failures = 10

abbrev pub max_delay : ℕ
max_delay = 30 * second

abbrev pub suspicious_failures : ℕ
suspicious_failures = 3

unfoldable pub free_failures : Text → ℕ
free_failures scope = if text_eq scope scope_ip then ip_free_failures else user_free_failures

-- `time.Second << (over - 1)`, capped; `over` is positive.
unfoldable pub delay_over : ℕ → ℕ
delay_over over =
    if ltb 5 over
    then max_delay
    else let d = second * 2 ^ (over - 1) in if ltb max_delay d then max_delay else d

-- `delayFor`. The subtraction cannot go below zero here: `over <= 0` is tested first.
unfoldable pub delay_for : Text → ℕ → ℕ
unfolding free_failures delay_over
delay_for scope failures =
    if leb failures (free_failures scope) then 0 else delay_over (failures - free_failures scope)

-- The curve without its shortcut: nothing within the free allowance, then one second doubled for each
-- further failure, never more than thirty.
unfoldable pub reference_delay : Text → ℕ → ℕ
reference_delay scope failures =
    if leb failures (free_failures scope)
    then 0
    else let d = second * 2 ^ (failures - free_failures scope - 1) in
      if ltb d max_delay then d else max_delay

-- One second, doubled `k` times, never more than the cap.
abbrev pub doubled : ℕ → ℕ
doubled k = let d = second * 2 ^ k in if ltb d max_delay then d else max_delay

doubled-late : (k : ℕ) → 5 ≤ k → doubled k ≡ max_delay
doubled-late k h =
    let power : 32 ≤ 2 ^ k = pow-le-pow_right {n = 2} (omega arith) {i = 5} {j = k} h in
    ground (arith, power)

early : (k : ℕ) → k < 5 → delay_over (suc k) ≡ doubled k
unfolding delay_over
early zero h = refl
early (suc zero) h = refl
early (suc (suc zero)) h = refl
early (suc (suc (suc zero))) h = refl
early (suc (suc (suc (suc zero)))) h = refl
early (suc (suc (suc (suc (suc k))))) h = absurd (omega arith)

late : (over : ℕ) → 5 < over → delay_over over ≡ max_delay
unfolding delay_over
late over h = ground (arith, lt→ltb 5 over h)

delay_over-doubled : (over : ℕ) → 0 < over → delay_over over ≡ doubled (over - 1)
delay_over-doubled zero h = absurd (omega arith)
delay_over-doubled (suc k) h = elim (Bool-cases (ltb k 5)) [
  | inl e ↦ early k (ltb→lt k 5 e) ∙ ap doubled before
  | inr e ↦ late (suc k) (ground arith) ∙ sym (doubled-late k (ground arith)) ∙ ap doubled before
]
  where
    before : k ≡ suc k - 1
    before = omega arith

-- The wait of every failure count is that of the plain curve: the shortcut past the fifth doubling and
-- the cap after it give nothing else.
pub delay_for-reference_delay :
    (scope : Text) (failures : ℕ) → delay_for scope failures ≡ reference_delay scope failures
unfolding delay_for reference_delay
delay_for-reference_delay scope failures = elim (Bool-cases (leb failures (free_failures scope))) [
  | inl free ↦ rw free refl
  | inr over ↦ rw over (delay_over-doubled (failures - free_failures scope) (ground arith))
]

doubled_mono : (i j : ℕ) → i ≤ j → doubled i ≤ doubled j
doubled_mono i j h =
    let power : 2 ^ i ≤ 2 ^ j = pow-le-pow_right {n = 2} (omega arith) {i = i} {j = j} h in
    ground (arith, power)

doubled-le : (k : ℕ) → doubled k ≤ max_delay
doubled-le k = ground arith

reference_delay-le : (scope : Text) (failures : ℕ) → reference_delay scope failures ≤ max_delay
unfolding reference_delay
reference_delay-le scope failures = elim (Bool-cases (leb failures (free_failures scope))) [
  | inl free ↦ rw free (omega arith)
  | inr over ↦ rw over (doubled-le (failures - free_failures scope - 1))
]

reference_delay_mono :
    (scope : Text) (m n : ℕ) → m ≤ n → reference_delay scope m ≤ reference_delay scope n
unfolding reference_delay
reference_delay_mono scope m n h = elim (Bool-cases (leb m (free_failures scope))) [
  | inl free ↦ rw free (omega arith)
  | inr over ↦
      let later : leb n (free_failures scope) ≡ false = ground arith in
      rw (over, later)
        (doubled_mono (m - free_failures scope - 1) (n - free_failures scope - 1) (omega arith))
]

doubled-pos : (k : ℕ) → 0 < doubled k
doubled-pos k =
    let power : 2 ^ 0 ≤ 2 ^ k =
      pow-le-pow_right {n = 2} (omega arith) {i = 0} {j = k} (omega arith) in
    ground (arith, power)

reference_delay-zero :
    (scope : Text) (n : ℕ) → n ≤ free_failures scope ↔ (reference_delay scope n ≡ 0)
unfolding reference_delay
reference_delay-zero scope n = (within_free, no_wait)
  where
    within_free : n ≤ free_failures scope → reference_delay scope n ≡ 0
    within_free h = ground arith

    no_wait : reference_delay scope n ≡ 0 → n ≤ free_failures scope
    no_wait e = elim (Bool-cases (leb n (free_failures scope))) [
      | inl free ↦ ground arith
      | inr over ↦ absurd (positive over)
    ]
      where
        positive : leb n (free_failures scope) ≡ false → ⊥
        positive over = omega (arith, doubled-pos (n - free_failures scope - 1), rw over at e)

-- The wait never falls as failures accumulate, is nothing within the free allowance of the scope, and
-- stays within thirty seconds.
pub delay_for_bounds :
    (scope : Text) (m n : ℕ)
    → m ≤ n
    → (delay_for scope m ≤ delay_for scope n)
      × (delay_for scope n ≤ max_delay)
      × (n ≤ free_failures scope ↔ (delay_for scope n ≡ 0))
delay_for_bounds scope m n h =
    rw (delay_for-reference_delay scope m, delay_for-reference_delay scope n)
      (reference_delay_mono scope m n h, reference_delay-le scope n, reference_delay-zero scope n)
