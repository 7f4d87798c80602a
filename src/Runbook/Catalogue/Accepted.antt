-- ===== src/Runbook/Catalogue/Accepted.antt =====
-- What `validate_runbook` accepts can be run: the parameters that are read are there, and they are
-- safe.
use mathlib.Core.Path.{subst}
use mathlib.Core.List.{Memᴰ}
use taka_ma.Common.{
  ◌≡◌, refl, sym, ap, ◌∙◌, inl, inr, suc, ◌≤◌, Bool, true, false, not, ◌&&◌, Option, none, some,
  List, [], ◌∷◌, map, keep, all, contains, length, if◌then◌else◌, ◌==◌, leb, list_eq, nat_eq, Text,
  codes, CharTable, Dict, dict_get, dict_has, dict_get_of_has, arith, Bool-cases, text_eq_iff,
  contains-keep,
}
use taka_ma.Runbook.{Operation, commit_paths, push, merge_ff, branch_create, switch}
use taka_ma.Runbook.Catalogue.{
  Value, text, list, other, params, no_dict, Entry, entry, no_entry, entries, RunbookStep, Problem,
  too_many_steps, Spec, runbook_kinds, good_param, good_path, good_message, good_paths, good_text,
  good_value, missing_of, unknown_of, bad_of, Checked, good, bad, checked_params, with_spec,
  check_entry, steps_in, problems_in, Validated, accepted, refused, by_problems, validate_runbook,
  text_in, paths_in, both, one, text_at, paths_at, all_texts, operation_of,
}

module _ (t : CharTable) where
  -- The parameters of an operation are those that a person can check and a shell cannot misread.
  abbrev pub is_sound : Operation → Bool
  is_sound (commit_paths paths message) = good_paths t (map some paths) && good_message t message
  is_sound (push none) = true
  is_sound (push (some branch)) = good_param branch
  is_sound (merge_ff source target) = good_param source && good_param target
  is_sound (branch_create name base) = good_param name && good_param base
  is_sound (switch branch) = good_param branch

  keep_nil :
      (p : Text → Bool) (xs : List Text) (k : Text)
      → keep p xs ≡ []
      → contains xs k ≡ true
      → p k ≡ false
  keep_nil p xs k e h = ground (arith, contains-keep p xs k, ap (λ l. contains l k) e)

  abbrev good_or : Text → Option Value → Bool
  good_or k none = true
  good_or k (some v) = good_value t k v

  bad_of-good :
      (values : Dict Text Value) (k : Text) (v : Value)
      → bad_of t values ≡ []
      → dict_get values k ≡ some v
      → good_value t k v ≡ true
  bad_of-good [] k v e h = absurd (ground arith)
  bad_of-good ((j, w) ∷ values) k v e h = elim (Bool-cases (good_value t j w)) [
    | inr wrong ↦ absurd (ground arith)
    | inl fine ↦ elim (Bool-cases (j == k)) [
      | inr away ↦ bad_of-good values k v (ground arith) (ground arith)
      | inl here ↦
          sym (ap (good_or k) (sym (ap (λ b. if b then some w else dict_get values k) here) ∙ h))
          ∙ sym (ap (λ x. good_value t x w) ((text_eq_iff j k).0 here))
          ∙ fine
    ]
  ]

  -- A required parameter that is a text.
  required_text :
      (values : Dict Text Value) (key : Text)
      → bad_of t values ≡ []
      → dict_has values key ≡ true
      → (key == codes "paths") ≡ false
      → (v : Text) × (text_at values key ≡ some v) × (good_text t key v ≡ true)
  required_text values key e h away = go (dict_get values key) refl
    where
      go :
          (o : Option Value)
          → dict_get values key ≡ o
          → (v : Text) × (text_at values key ≡ some v) × (good_text t key v ≡ true)
      go none q = absurd (dict_get_of_has values key h q)
      go (some (text v)) q = (v, ap text_in q, bad_of-good values key (text v) e q)
      go (some (list ps)) q = absurd (ground (arith, bad_of-good values key (list ps) e q))
      go (some other) q = absurd (ground (arith, bad_of-good values key other e q))

  all_texts-good :
      (ps : List (Option Text))
      → all good_path ps ≡ true
      → (paths : List Text) × (all_texts ps ≡ some paths) × (map some paths ≡ ps)
  all_texts-good [] h = ([], refl, refl)
  all_texts-good (none ∷ ps) h = absurd (ground arith)
  all_texts-good (some p ∷ ps) h =
      let (paths, e, same) = all_texts-good ps (ground arith) in
      (p ∷ paths, ground (arith, e), ap (λ l. some p ∷ l) same)

  required_paths :
      (values : Dict Text Value)
      → bad_of t values ≡ []
      → dict_has values (codes "paths") ≡ true
      → (paths : List Text) × (paths_at values ≡ some paths)
        × (good_paths t (map some paths) ≡ true)
  required_paths values e h = go (dict_get values (codes "paths")) refl
    where
      go :
          (o : Option Value)
          → dict_get values (codes "paths") ≡ o
          → (paths : List Text) × (paths_at values ≡ some paths)
            × (good_paths t (map some paths) ≡ true)
      go none q = absurd (dict_get_of_has values (codes "paths") h q)
      go (some (text v)) q =
          absurd (ground (arith, bad_of-good values (codes "paths") (text v) e q))
      go (some other) q = absurd (ground (arith, bad_of-good values (codes "paths") other e q))
      go (some (list ps)) q =
          let fine = bad_of-good values (codes "paths") (list ps) e q in
          let (paths, found, same) = all_texts-good ps (ground arith) in
          (paths, ap paths_in q ∙ found, ap (good_paths t) same ∙ fine)

  -- A step that `validate_runbook` accepts, by its kind.
  abbrev IsOperation : RunbookStep → Type 0
  IsOperation s = (op : Operation) × (operation_of s ≡ some op) × (is_sound op ≡ true)

  module _ (values : Dict Text Value) (fine : bad_of t values ≡ []) where
    there :
        (key : Text) (s : Spec)
        → missing_of t s values ≡ []
        → contains s.required key ≡ true
        → dict_has values key ≡ true
    there key s e h = ground (arith, keep_nil (λ k. not (dict_has values k)) s.required key e h)

    two_texts :
        (f : Text → Text → Operation) (a b : Text) (s : Spec)
        → missing_of t s values ≡ []
        → contains s.required a ≡ true
        → contains s.required b ≡ true
        → (a == codes "paths") ≡ false
        → (b == codes "paths") ≡ false
        → (x : Text) × (y : Text) × (both f (text_at values a) (text_at values b) ≡ some (f x y))
          × (good_text t a x ≡ true)
          × (good_text t b y ≡ true)
    two_texts f a b s e ha hb pa pb =
        let (x, ex, gx) = required_text values a fine (there a s e ha) pa in
        let (y, ey, gy) = required_text values b fine (there b s e hb) pb in
        (x, y, ap (λ o. both f o (text_at values b)) ex ∙ ap (both f (some x)) ey, gx, gy)

    commit_paths-IsOperation :
        missing_of t
            (record { required = codes "paths" ∷ codes "message" ∷ []; optional = [] })
            values
          ≡ []
        → IsOperation (record { kind = codes "commit_paths"; values = values })
    unfolding operation_of
    commit_paths-IsOperation e =
        let s : Spec = record { required = codes "paths" ∷ codes "message" ∷ []; optional = [] } in
        let (ps, ep, gp) = required_paths values fine (there (codes "paths") s e refl) in
        let (m, em, gm) =
          required_text values (codes "message") fine (there (codes "message") s e refl) refl in
        (
          commit_paths ps m,
          ap (λ o. both commit_paths o (text_at values (codes "message"))) ep
              ∙ ap (both commit_paths (some ps)) em,
          ground (arith, gp, gm),
        )

    merge_ff-IsOperation :
        missing_of t
            (record { required = codes "source" ∷ codes "target" ∷ []; optional = [] })
            values
          ≡ []
        → IsOperation (record { kind = codes "merge_ff"; values = values })
    unfolding operation_of
    merge_ff-IsOperation e =
        let (x, y, found, gx, gy) =
          two_texts merge_ff (codes "source") (codes "target")
            (record { required = codes "source" ∷ codes "target" ∷ []; optional = [] }) e refl refl
            refl refl in
        (merge_ff x y, found, ground (arith, gx, gy))

    branch_create-IsOperation :
        missing_of t (record { required = codes "name" ∷ codes "base" ∷ []; optional = [] }) values
          ≡ []
        → IsOperation (record { kind = codes "branch_create"; values = values })
    unfolding operation_of
    branch_create-IsOperation e =
        let (x, y, found, gx, gy) =
          two_texts branch_create (codes "name") (codes "base")
            (record { required = codes "name" ∷ codes "base" ∷ []; optional = [] }) e refl refl refl
            refl in
        (branch_create x y, found, ground (arith, gx, gy))

    switch-IsOperation :
        missing_of t (record { required = codes "branch" ∷ []; optional = [] }) values ≡ []
        → IsOperation (record { kind = codes "switch"; values = values })
    unfolding operation_of
    switch-IsOperation e =
        let (x, found, gx) =
          required_text values (codes "branch") fine
            (there (codes "branch") (record { required = codes "branch" ∷ []; optional = [] }) e
              refl)
            refl in
        (switch x, ap (one switch) found, gx)

    push-IsOperation : IsOperation (record { kind = codes "push"; values = values })
    unfolding operation_of
    push-IsOperation = go (dict_get values (codes "branch")) refl
      where
        go :
            (o : Option Value)
            → dict_get values (codes "branch") ≡ o
            → (op : Operation) × (some (push (text_in o)) ≡ some op) × (is_sound op ≡ true)
        go none q = (push none, refl, refl)
        go (some (text v)) q =
            (push (some v), refl, bad_of-good values (codes "branch") (text v) fine q)
        go (some (list ps)) q = (push none, refl, refl)
        go (some other) q = (push none, refl, refl)

  abbrev IsAccepted : Checked t → Type 0
  IsAccepted c = (s : RunbookStep) → c ≡ good s → IsOperation s

  abbrev step_in : RunbookStep → Checked t → RunbookStep
  step_in before (good s) = s
  step_in before (bad p) = before

  checked_params-IsAccepted :
      (kind : Text) (values : Dict Text Value) (missing unknown bads : List Text)
      → (missing ≡ [] → bads ≡ [] → IsOperation (record { kind = kind; values = values }))
      → IsAccepted (checked_params t kind values missing unknown bads)
  checked_params-IsAccepted kind values [] [] [] k s e =
      subst IsOperation (ap (step_in s) e) (k refl refl)
  checked_params-IsAccepted kind values [] [] (b ∷ bs) k s e = absurd (ground arith)
  checked_params-IsAccepted kind values [] (u ∷ us) bs k s e = absurd (ground arith)
  checked_params-IsAccepted kind values (m ∷ ms) us bs k s e = absurd (ground arith)

  by_spec-IsAccepted :
      (kind : Text) (values : Dict Text Value) (s : Spec)
      → (missing_of t s values ≡ []
          → bad_of t values ≡ []
          → IsOperation (record { kind = kind; values = values }))
      → IsAccepted (with_spec t kind (params values) (some s))
  by_spec-IsAccepted kind values s k =
      checked_params-IsAccepted kind values (missing_of t s values) (unknown_of t s values)
        (bad_of t values) k

  abbrev needing : List Text → List Text → Spec
  needing required optional = record { required = required; optional = optional }

  with_spec-IsAccepted :
      (values : Dict Text Value) (kind : Text)
      → IsAccepted (with_spec t kind (params values) (dict_get runbook_kinds kind))
  with_spec-IsAccepted values kind =
      by_kind (codes "commit_paths")
        (by_spec-IsAccepted (codes "commit_paths") values
          (needing (codes "paths" ∷ codes "message" ∷ []) [])
          (λ e f. commit_paths-IsOperation values f e))
        (λ a.
          by_kind (codes "push")
            (by_spec-IsAccepted (codes "push") values (needing [] (codes "branch" ∷ []))
              (λ e f. push-IsOperation values f))
            (λ b.
              by_kind (codes "merge_ff")
                (by_spec-IsAccepted (codes "merge_ff") values
                  (needing (codes "source" ∷ codes "target" ∷ []) [])
                  (λ e f. merge_ff-IsOperation values f e))
                (λ c.
                  by_kind (codes "branch_create")
                    (by_spec-IsAccepted (codes "branch_create") values
                      (needing (codes "name" ∷ codes "base" ∷ []) [])
                      (λ e f. branch_create-IsOperation values f e))
                    (λ d.
                      by_kind (codes "switch")
                        (by_spec-IsAccepted (codes "switch") values
                          (needing (codes "branch" ∷ []) []) (λ e f. switch-IsOperation values f e))
                        (λ e s h. absurd (ground (arith, a, b, c, d, e)))))))
    where
      by_kind :
          (name : Text)
          → IsAccepted (with_spec t name (params values) (dict_get runbook_kinds name))
          → ((name == kind) ≡ false
              → IsAccepted (with_spec t kind (params values) (dict_get runbook_kinds kind)))
          → IsAccepted (with_spec t kind (params values) (dict_get runbook_kinds kind))
      by_kind name this_kind other_kind = elim (Bool-cases (name == kind)) [
        | inl here ↦
            subst (λ k. IsAccepted (with_spec t k (params values) (dict_get runbook_kinds k)))
              ((text_eq_iff name kind).0 here) this_kind
        | inr away ↦ other_kind away
      ]

  no_params : (kind : Text) (o : Option Spec) → IsAccepted (with_spec t kind no_dict o)
  no_params kind none s h = absurd (ground arith)
  no_params kind (some x) s h = absurd (ground arith)

  check_entry-IsAccepted : (e : Entry) → IsAccepted (check_entry t e)
  unfolding check_entry
  check_entry-IsAccepted no_entry s h = absurd (ground arith)
  check_entry-IsAccepted (entry none ps) s h = absurd (ground arith)
  check_entry-IsAccepted (entry (some kind) (params values)) s h =
      with_spec-IsAccepted values kind s h
  check_entry-IsAccepted (entry (some kind) no_dict) s h =
      no_params kind (dict_get runbook_kinds kind) s h

  -- The steps in a list of checks without a problem.
  abbrev IsAll : List (Checked t) → Type 0
  IsAll cs =
      (length (steps_in t cs) ≡ length cs)
      × ((s : RunbookStep) → Memᴰ s (steps_in t cs) → IsOperation s)

  steps_in-IsAll :
      (cs : List (Checked t))
      → ((c : Checked t) → Memᴰ c cs → IsAccepted c)
      → problems_in t cs ≡ []
      → IsAll cs
  steps_in-IsAll [] k h = (refl, λ s m. elim m [ ])
  steps_in-IsAll (bad p ∷ cs) k h = absurd (ground arith)
  steps_in-IsAll (good s ∷ cs) k h =
      let (count, more) = steps_in-IsAll cs (λ c m. k c (Memᴰ.tail m)) h in
      (
        ap suc count,
        λ x m. elim m [
          | Memᴰ.head e ↦ k (good s) (Memᴰ.head refl) x (ap good (sym e))
          | Memᴰ.tail n ↦ more x n
        ],
      )

  checks-IsAccepted :
      (es : List Entry) (c : Checked t) → Memᴰ c (map (check_entry t) es) → IsAccepted c
  checks-IsAccepted [] c m = elim m [ ]
  checks-IsAccepted (e ∷ es) c (Memᴰ.head q) = subst IsAccepted (sym q) (check_entry-IsAccepted e)
  checks-IsAccepted (e ∷ es) c (Memᴰ.tail m) = checks-IsAccepted es c m

  length-map : {A B : Type 0} (f : A → B) (xs : List A) → length (map f xs) ≡ length xs
  length-map f [] = refl
  length-map f (x ∷ xs) = ap suc (length-map f xs)

  abbrev steps_accepted : Validated t → List RunbookStep
  steps_accepted (accepted steps) = steps
  steps_accepted (refused problems) = []

  by_problems-IsAll :
      (es : List Entry) (ps : List Problem) (steps : List RunbookStep)
      → problems_in t (map (check_entry t) es) ≡ ps
      → by_problems t ps (steps_in t (map (check_entry t) es)) ≡ accepted steps
      → (length steps ≡ length es) × ((s : RunbookStep) → Memᴰ s steps → IsOperation s)
  by_problems-IsAll es (p ∷ ps) steps q h = absurd (ground arith)
  by_problems-IsAll es [] steps q h =
      let (count, every) = steps_in-IsAll (map (check_entry t) es) (checks-IsAccepted es) q in
      subst (λ l. (length l ≡ length es) × ((s : RunbookStep) → Memᴰ s l → IsOperation s))
        (ap steps_accepted h) (count ∙ length-map (check_entry t) es, every)

  -- A runbook that is accepted has at most ten steps, one for each entry; each is an operation of the
  -- catalogue, with the parameters it needs, and these are safe.
  pub validate_runbook-accepted :
      (es : List Entry) (steps : List RunbookStep)
      → validate_runbook t (entries es) ≡ accepted steps
      → (length es ≤ 10)
        × (length steps ≡ length es)
        × ((s : RunbookStep)
            → Memᴰ s steps
            → (op : Operation) × (operation_of s ≡ some op) × (is_sound op ≡ true))
  unfolding validate_runbook
  validate_runbook-accepted es steps h = elim (Bool-cases (leb (length es) 10)) [
    | inr long ↦ absurd (ground arith)
    | inl short ↦
        let (count, every) =
          by_problems-IsAll es (problems_in t (map (check_entry t) es)) steps refl (
            sym (
              ap
                (λ b.
                  if b
                  then by_problems t (problems_in t (map (check_entry t) es))
                      (steps_in t (map (check_entry t) es))
                  else refused (too_many_steps (length es) ∷ []))
                short)
            ∙ h) in
        (ground (arith, short), count, every)
  ]
