-- ===== src/Tracing/Laws.antt =====
-- The environment that tracing leaves behind, and the run that it selects
-- (observability/tracing.py).
use deskfleet_ticketwarden.Base.{
  sym, ◌||◌, if◌then◌else◌, false, any, filter, ◌⊎◌, find?, true, List, All, Bool, is_some, eq_iff,
  ◌≡◌, refl, ◌∙◌, String, Option, none, some, [], ◌∷◌, ◌++◌, str_eq, arith, Bool-cases,
  Option-cases, inl, inr,
}
use deskfleet_ticketwarden.Tracing.{
  disabled_defaults, tracing_enabled, is_outer_chain, is_root, Process, enabled_defaults, Run,
  select_from, Settings, select_root, configure_tracing, last, Environ, lookup_env, set_default,
  set_defaults,
}

-- The first of two optional values that is there.
abbrev pub first : {A : Type 0} → Option A → Option A → Option A
first none o = o
first (some a) o = some a

lookup_env-append :
    (k : String) (env rows : Environ)
    → lookup_env k (env ++ rows) ≡ first (lookup_env k env) (lookup_env k rows)
unfolding lookup_env
lookup_env-append k [] rows = refl
lookup_env-append k ((j, v) ∷ env) rows = elim (Bool-cases (str_eq j k)) [
  | inl same ↦ rw same refl
  | inr other ↦ rw other (lookup_env-append k env rows)
]

lookup_env-set_default :
    (k j w : String) (env rows : Environ)
    → first (lookup_env k (set_default j w env)) (lookup_env k rows)
      ≡ first (lookup_env k env) (lookup_env k ((j, w) ∷ rows))
unfolding set_default lookup_env
lookup_env-set_default k j w env rows = elim (Option-cases (lookup_env j env)) [
  | inl new ↦ rw (new, lookup_env-append k env ((j, w) ∷ [])) (ground (arith, eq_iff j k))
  | inr (v, there) ↦ rw there (ground (arith, eq_iff j k))
]

lookup_env-set_defaults :
    (k : String) (rows env : Environ)
    → lookup_env k (set_defaults rows env) ≡ first (lookup_env k env) (lookup_env k rows)
unfolding set_defaults
lookup_env-set_defaults k [] env = ground arith
lookup_env-set_defaults k ((j, w) ∷ rows) env =
    lookup_env-set_defaults k rows (set_default j w env) ∙ lookup_env-set_default k j w env rows

abbrev AllSet : List (String × String) → Environ → Type 0
AllSet rows env = All (λ (row : String × String). is_some (lookup_env row.0 env) ≡ true) rows

set_defaults_set : (rows env : Environ) → AllSet rows env → set_defaults rows env ≡ env
unfolding set_defaults set_default
set_defaults_set [] env h = refl
set_defaults_set ((k, v) ∷ rows) env h = rw h.0 (set_defaults_set rows env h.1)

is_some-first : {A : Type 0} (o p : Option A) → is_some (first o p) ≡ (is_some o || is_some p)
is_some-first none p = refl
is_some-first (some a) p = refl

-- Every key of the rows that are still to come, and every key that is set, is set at the end.
set_defaults-AllSet :
    (rows all env : Environ)
    → All (λ (row : String × String). is_some (lookup_env row.0 all) ≡ true) rows
    → AllSet rows (set_defaults all env)
set_defaults-AllSet [] all env h = tt
set_defaults-AllSet ((k, v) ∷ rows) all env h = (
  rw (lookup_env-set_defaults k all env, is_some-first) (ground (arith, h.0)),
  set_defaults-AllSet rows all env h.1,
)

enabled-keys : (s : Settings) → AllSet (enabled_defaults s) (enabled_defaults s)
unfolding lookup_env
enabled-keys s = (refl, (refl, (refl, (refl, (refl, (refl, (refl, (refl, tt))))))))

-- The environment after `configure_tracing`: a variable that was set keeps its value, any other has
-- the default that is given for it, if one is, and a second call changes nothing.
pub configure_tracing_lem :
    (s : Settings) (p : Process)
    → let (enabled, p') = configure_tracing s p in
      ((k : String)
        → lookup_env k p'.environ
          ≡ first
              (lookup_env k p.environ)
              (lookup_env k (if tracing_enabled s then enabled_defaults s else disabled_defaults)))
      × (configure_tracing s p' ≡ (enabled, p'))
unfolding configure_tracing lookup_env
configure_tracing_lem s p = elim (Bool-cases (tracing_enabled s)) [
  | inl on ↦ rw on (
    λ k. lookup_env-set_defaults k (enabled_defaults s) p.environ,
    rw
        (set_defaults_set (enabled_defaults s) (set_defaults (enabled_defaults s) p.environ) (
          set_defaults-AllSet (enabled_defaults s) (enabled_defaults s) p.environ (enabled-keys s)))
        refl,
  )
  | inr off ↦ rw off (
    λ k. lookup_env-set_defaults k disabled_defaults p.environ,
    rw
        (set_defaults_set disabled_defaults (set_defaults disabled_defaults p.environ)
          (set_defaults-AllSet disabled_defaults disabled_defaults p.environ (refl, tt)))
        refl,
  )
]

-- `x` stands in the list.
abbrev pub In : {A : Type 0} → A → List A → Type 0
In x [] = ⊥
In x (y ∷ ys) = (x ≡ y) ⊎ In x ys

find?-cases :
    {A : Type 0} (p : A → Bool) (xs : List A)
    → ((x : A) × (find? p xs ≡ some x) × In x xs × (p x ≡ true))
      ⊎ ((find? p xs ≡ none) × (any p xs ≡ false))
find?-cases p [] = inr (refl, refl)
find?-cases p (x ∷ xs) = elim (Bool-cases (p x)) [
  | inl here ↦ inl (x, rw here refl, inl refl, here)
  | inr miss ↦ elim (find?-cases p xs) [
    | inl (y, found, there, good) ↦ inl (y, rw miss found, inr there, good)
    | inr (absent, none_) ↦ inr (rw miss absent, rw miss none_)
  ]
]

last-cases : (runs : List Run) → ((x : Run) × (last runs ≡ some x) × In x runs) ⊎ (runs ≡ [])
unfolding last
last-cases [] = inr refl
last-cases (r ∷ []) = inl (r, refl, inl refl)
last-cases (r ∷ s ∷ runs) = elim (last-cases (s ∷ runs)) [
  | inl (x, e, there) ↦ inl (x, e, inr there)
  | inr none_ ↦ cc
]

In-filter :
    {A : Type 0} (p : A → Bool) (x : A) (xs : List A) → In x (filter p xs) → In x xs × (p x ≡ true)
In-filter p x [] h = absurd h
In-filter p x (y ∷ ys) h = elim (Bool-cases (p y)) [
  | inl good ↦ elim (let k : In x (y ∷ filter p ys) = rw good at h in k) [
    | inl same ↦ (inl same, rw same good)
    | inr later ↦ let (there, ok_) = In-filter p x ys later in (inr there, ok_)
  ]
  | inr bad ↦ let (there, ok_) = In-filter p x ys (rw bad at h) in (inr there, ok_)
]

filter-nil : {A : Type 0} (p : A → Bool) (xs : List A) → filter p xs ≡ [] → any p xs ≡ false
filter-nil p [] h = refl
filter-nil p (x ∷ xs) h = elim (Bool-cases (p x)) [
  | inl good ↦ let k : x ∷ filter p xs ≡ [] = rw good at h in cc
  | inr bad ↦ rw bad (filter-nil p xs (rw bad at h))
]

any-In : {A : Type 0} (p : A → Bool) (x : A) (xs : List A) → In x xs → p x ≡ true → any p xs ≡ true
any-In p x [] i h = absurd i
any-In p x (y ∷ ys) (inl same) h = rw (← same, h) refl
any-In p x (y ∷ ys) (inr later) h = elim (Bool-cases (p y)) [
  | inl good ↦ rw good refl
  | inr bad ↦ rw bad (any-In p x ys later h)
]

not_any :
    {A : Type 0} (p : A → Bool) (x : A) (xs : List A) → In x xs → any p xs ≡ false → p x ≡ false
not_any p x xs i h = elim (Bool-cases (p x)) [
  | inl good ↦ let hit = any-In p x xs i good in cc
  | inr bad ↦ bad
]

-- From any collected runs one is selected, and it is one of them: one with the root's name if there
-- is such a run, and otherwise a chain without a parent if there is such a run.
pub select_root_lem :
    (run : Run) (runs : List Run)
    → (root : Run) × (select_root (run ∷ runs) ≡ some root)
      × In root (run ∷ runs)
      × (is_root root ≡ any is_root (run ∷ runs))
      × ((is_root root || is_outer_chain root)
          ≡ (any is_root (run ∷ runs) || any is_outer_chain (run ∷ runs)))
unfolding select_root select_from
select_root_lem run runs =
    let traced = run ∷ runs in
    elim (find?-cases is_root traced) [
      | inl (x, found, there, good) ↦ (
        x,
        rw (select_root, select_from, found) refl,
        there,
        good ∙ sym (any-In is_root x traced there good),
        rw (good, any-In is_root x traced there good) refl,
      )
      | inr (absent, no_root) ↦ elim (last-cases (filter is_outer_chain traced)) [
        | inl (x, e, chosen) ↦
            let (there, chain) = In-filter is_outer_chain x traced chosen in
            let plain = not_any is_root x traced there no_root in
            (
              x,
              rw (select_root, select_from, absent, e) refl,
              there,
              plain ∙ sym no_root,
              rw (plain, no_root, chain, any-In is_outer_chain x traced there chain) refl,
            )
        | inr none_ ↦
            let no_chain = filter-nil is_outer_chain traced none_ in
            elim (last-cases traced) [
              | inl (x, e, there) ↦ (
                x,
                rw (select_root, select_from, absent, none_) e,
                there,
                not_any is_root x traced there no_root ∙ sym no_root,
                rw
                    (
                      not_any is_root x traced there no_root,
                      no_root,
                      not_any is_outer_chain x traced there no_chain,
                      no_chain,
                    )
                    refl,
              )
              | inr none' ↦ cc
            ]
      ]
    ]
