-- ===== src/Selftest/Runs.antt =====
-- `longest_run` gives a run of following taps that stands in the list, and none is longer.
use mathlib.Core.List.{append_assoc, append-nil}
use emac_zero.Base.{
  ==_iff, Bool-cases, List, Option, [], ap, arith, false, inl, inr, length, length-append, ltb,
  none, refl, some, suc, sym, true, zero, ℕ, ◌++◌, ◌+◌, ◌==◌, ◌∙◌, ◌∷◌, ◌≡◌, ◌≤◌,
}
use emac_zero.Selftest.Taps.{better, follows, last_of, longest_run, next_run, run_loop}

-- a, a + 1, … in `n` steps
abbrev pub count_up : ℕ → ℕ → List ℕ
count_up a zero = []
count_up a (suc n) = a ∷ count_up (suc a) n

last_of-append : (xs : List ℕ) (x : ℕ) → last_of (xs ++ (x ∷ [])) ≡ some x
unfolding last_of
last_of-append [] x = refl
last_of-append (y ∷ []) x = refl
last_of-append (y ∷ z ∷ ys) x = last_of-append (z ∷ ys) x

-- The last tap of the current run is the last tap that was read.
last_of-next_run : (cur : List ℕ) (tap : ℕ) → last_of (next_run cur tap) ≡ some tap
unfolding next_run last_of
last_of-next_run cur tap = elim (Bool-cases (follows cur tap)) [
  | inl y ↦ rw y (last_of-append cur tap)
  | inr n ↦ rw n refl
]

length-better :
    (best cur : List ℕ)
    → (length best ≤ length (better best cur)) × (length cur ≤ length (better best cur))
unfolding better
length-better best cur = ground arith

-- The best length never falls.
length-run_loop : (taps best cur : List ℕ) → length best ≤ length (run_loop best cur taps)
unfolding run_loop
length-run_loop [] best cur = omega arith
length-run_loop (tap ∷ taps) best cur = omega (
  arith,
  length-run_loop taps (better best (next_run cur tap)) (next_run cur tap),
  (length-better best (next_run cur tap)).0,
)

follows-last : (cur : List ℕ) (l : ℕ) → last_of cur ≡ some l → follows cur (suc l) ≡ true
unfolding follows
follows-last cur l e = rw (e, follows) (ground arith)

next_run-follows :
    (cur : List ℕ) (l : ℕ) → last_of cur ≡ some l → length (next_run cur (suc l)) ≡ length cur + 1
unfolding next_run
next_run-follows cur l e =
    let f : follows cur (suc l) ≡ true = follows-last cur l e in
    rw f (length-append cur (suc l ∷ []))

length-next_run : (cur : List ℕ) (tap : ℕ) → 1 ≤ length (next_run cur tap)
unfolding next_run
length-next_run cur tap = elim (Bool-cases (follows cur tap)) [
  | inl y ↦ rw y (omega (arith, length-append cur (tap ∷ [])))
  | inr n ↦ rw n (omega arith)
]

-- From a current run that ends at `l`, the taps after `l` lengthen it.
run_loop-extends :
    (n l : ℕ) (best cur post : List ℕ)
    → last_of cur ≡ some l
    → length cur ≤ length best
    → length cur + n ≤ length (run_loop best cur (count_up (suc l) n ++ post))
unfolding run_loop
run_loop-extends zero l best cur post e h = omega (arith, length-run_loop post best cur)
run_loop-extends (suc n) l best cur post e h =
    let f = next_run-follows cur l e in
    let cur' = next_run cur (suc l) in
    let b = length-better best cur' in
    let ih =
      run_loop-extends n (suc l) (better best cur') cur' post (last_of-next_run cur (suc l)) b.1 in
    omega (arith, f, ih)

-- A run of following taps is no longer than the result, wherever it stands.
run_loop-AtLeast :
    (pre post best cur : List ℕ) (a n : ℕ)
    → n ≤ length (run_loop best cur (pre ++ (count_up a n ++ post)))
unfolding run_loop
run_loop-AtLeast [] post best cur a zero = omega arith
run_loop-AtLeast [] post best cur a (suc n) =
    let cur' = next_run cur a in
    let b = length-better best cur' in
    let x = run_loop-extends n a (better best cur') cur' post (last_of-next_run cur a) b.1 in
    omega (arith, length-next_run cur a, x)
run_loop-AtLeast (p ∷ pre) post best cur a n =
    run_loop-AtLeast pre post (better best (next_run cur p)) (next_run cur p) a n

-- The taps stand in the list, one after the other, and each is the one before it and 1.
abbrev pub IsRunIn : List ℕ → List ℕ → Type 0
IsRunIn xs whole =
    (pre : List ℕ) × (post : List ℕ) × (a : ℕ) × (whole ≡ pre ++ (xs ++ post))
    × (xs ≡ count_up a (length xs))

-- The same, at the end of the list.
abbrev IsLastRun : List ℕ → List ℕ → Type 0
IsLastRun xs whole = (pre : List ℕ) × (a : ℕ) × (whole ≡ pre ++ xs) × (xs ≡ count_up a (length xs))

last_of-count_up : (n a l : ℕ) → last_of (count_up a n) ≡ some l → l + 1 ≡ a + n
unfolding last_of
last_of-count_up zero a l e = cc
last_of-count_up (suc zero) a l e = omega (arith, some_inj e)
  where
    some_inj : {x y : ℕ} → some x ≡ some y → x ≡ y
    some_inj q = cc
last_of-count_up (suc (suc n)) a l e = omega (arith, last_of-count_up (suc n) (suc a) l e)

count_up-append : (n a x : ℕ) → x ≡ a + n → count_up a n ++ (x ∷ []) ≡ count_up a (suc n)
count_up-append zero a x e = ap (λ y. y ∷ []) (omega arith)
count_up-append (suc n) a x e = ap (◌∷◌ a) (count_up-append n (suc a) x (omega arith))

follows_iff :
    (cur : List ℕ) (tap : ℕ)
    → follows cur tap ≡ true
    → (l : ℕ) × (last_of cur ≡ some l) × (tap ≡ l + 1)
unfolding follows
follows_iff cur tap e = go (last_of cur) refl e
  where
    go :
        (o : Option ℕ)
        → last_of cur ≡ o
        → elim o [ none ↦ false | some l ↦ tap == l + 1 ] ≡ true
        → (l : ℕ) × (last_of cur ≡ some l) × (tap ≡ l + 1)
    go none q f = cc
    go (some l) q f = (l, q, (==_iff tap (l + 1)).0 f)

-- The current run with the next tap ends the list with that tap.
next_run-IsLastRun :
    (seen cur : List ℕ) (tap : ℕ)
    → IsLastRun cur seen
    → IsLastRun (next_run cur tap) (seen ++ (tap ∷ []))
unfolding next_run
next_run-IsLastRun seen cur tap (pre, a, e, r) = elim (Bool-cases (follows cur tap)) [
  | inr n ↦ rw n (seen, tap, refl, refl)
  | inl y ↦
      let (l, q, t) = follows_iff cur tap y in
      let bound = last_of-count_up (length cur) a l (ap last_of (sym r) ∙ q) in
      rw y (
        pre,
        a,
        ap (λ xs. xs ++ (tap ∷ [])) e ∙ append_assoc pre cur (tap ∷ []),
        ap (λ xs. xs ++ (tap ∷ [])) r
            ∙ count_up-append (length cur) a tap (omega arith)
            ∙ ap (count_up a) {x = suc (length cur)} (omega (arith, length-append cur (tap ∷ []))),
      )
]

better-IsRunIn :
    (seen best cur new : List ℕ)
    → IsRunIn best seen
    → IsLastRun cur (seen ++ new)
    → IsRunIn (better best cur) (seen ++ new)
unfolding better
better-IsRunIn seen best cur new (pre, post, a, e, r) (pre', a', e', r') =
    elim (Bool-cases (ltb (length best) (length cur))) [
      | inl y ↦ rw y (pre', [], a', e' ∙ ap (◌++◌ pre') (sym (append-nil cur)), r')
      | inr n ↦ rw n (
        pre,
        post ++ new,
        a,
        ap (λ xs. xs ++ new) e
            ∙ append_assoc pre (best ++ post) new
            ∙ ap (◌++◌ pre) (append_assoc best post new),
        r,
      )
    ]

run_loop-IsRunIn :
    (seen best cur taps : List ℕ)
    → IsRunIn best seen
    → IsLastRun cur seen
    → IsRunIn (run_loop best cur taps) (seen ++ taps)
unfolding run_loop
run_loop-IsRunIn seen best cur [] b c = rw (append-nil seen) b
run_loop-IsRunIn seen best cur (tap ∷ taps) b c =
    let cur' = next_run cur tap in
    let c' = next_run-IsLastRun seen cur tap c in
    rw (← append_assoc seen (tap ∷ []) taps) (
      run_loop-IsRunIn (seen ++ (tap ∷ [])) (better best cur') cur' taps
        (better-IsRunIn seen best cur' (tap ∷ []) b c') c')

-- `longest_run` gives taps that stand in the list, each the one before it and 1, and no run of
-- such taps in the list, wherever it stands, has more.
pub longest_run-IsRunIn :
    (pre post : List ℕ) (a n : ℕ)
    → let taps = pre ++ (count_up a n ++ post) in
      IsRunIn (longest_run taps) taps × (n ≤ length (longest_run taps))
unfolding longest_run
longest_run-IsRunIn pre post a n = (
  run_loop-IsRunIn [] [] [] (pre ++ (count_up a n ++ post)) ([], [], 0, refl, refl)
      ([], 0, refl, refl),
  run_loop-AtLeast pre post [] [] a n,
)
