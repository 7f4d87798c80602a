-- ===== src/Plan/Waves/Loop.antt =====
-- The loop of `compute_waves` in orchestrator/plan.py: what a round deletes, and why the fuel is
-- enough.
use taka_ma.Common.{
  length-dict_without-le, length-dict_without-lt, ◌≡◌, refl, ap, ◌∙◌, ℕ, zero, suc, ◌≤◌, ◌<◌, none,
  List, [], ◌∷◌, ◌++◌, not, ◌&&◌, if◌then◌else◌, length, keep, contains, Dict, dict_get, dict_has,
  dict_without, nat_eq, arith, dict_has-dict_without, dict_get-dict_without,
}
use taka_ma.Plan.Waves.{
  is_ready, Deleted, left, missing, delete_all, Round, last_wave, next_wave, raised, after_delete,
  round_of, round, Outcome, waves, key_error, spent, cons_wave, wave_loop,
}

abbrev pub Entries : Type 0
Entries = Dict ℕ (List ℕ)

pub dict_get-delete_all :
    (w : List ℕ) (d d' : Entries) (j : ℕ)
    → delete_all w d ≡ left d'
    → dict_get d' j ≡ (if contains w j then none else dict_get d j)
unfolding delete_all
dict_get-delete_all [] d d' j h = ground arith
dict_get-delete_all (st ∷ w) d d' j h =
    ground (arith, dict_get-delete_all w (dict_without d st) d' j, dict_get-dict_without d st j)

pub dict_has-delete_all :
    (w : List ℕ) (d d' : Entries) (j : ℕ)
    → delete_all w d ≡ left d'
    → dict_has d' j ≡ (dict_has d j && not (contains w j))
unfolding delete_all
dict_has-delete_all [] d d' j h = ground arith
dict_has-delete_all (st ∷ w) d d' j h =
    ground (arith, dict_has-delete_all w (dict_without d st) d' j, dict_has-dict_without d st j)

length-delete_all-le :
    (w : List ℕ) (d d' : Entries) → delete_all w d ≡ left d' → length d' ≤ length d
unfolding delete_all
length-delete_all-le [] d d' h = ground arith
length-delete_all-le (st ∷ w) d d' h =
    ground (arith, length-delete_all-le w (dict_without d st) d', length-dict_without-le d st)

-- A round that goes on leaves fewer entries.
length-round :
    (order done w : List ℕ) (d rest : Entries)
    → round order d done ≡ next_wave w rest
    → length rest < length d
unfolding round
length-round order done w d rest h = from (keep (is_ready d done) order) h
  where
    from : (ready : List ℕ) → round_of ready order d ≡ next_wave w rest → length rest < length d
    from [] e = absurd (ground arith)
    from (x ∷ xs) e =
        ground (arith, length-delete_all-le xs (dict_without d x) rest, length-dict_without-lt d x)

after_delete-next :
    (ready w : List ℕ) (rest : Entries) (r : Deleted)
    → after_delete ready r ≡ next_wave w rest
    → (w ≡ ready) × (r ≡ left rest)
after_delete-next ready w rest (left d) e = ground arith
after_delete-next ready w rest (missing st) e = absurd (ground arith)

pub round-next :
    (order done w : List ℕ) (d rest : Entries)
    → round order d done ≡ next_wave w rest
    → (w ≡ keep (is_ready d done) order) × (delete_all w d ≡ left rest)
unfolding round
round-next order done w d rest h = from (keep (is_ready d done) order) h
  where
    from :
        (ready : List ℕ)
        → round_of ready order d ≡ next_wave w rest
        → (w ≡ ready) × (delete_all w d ≡ left rest)
    from [] e = absurd (ground arith)
    from (x ∷ xs) e =
        let both = after_delete-next (x ∷ xs) w rest (delete_all (x ∷ xs) d) e in
        (both.0, ap (λ l. delete_all l d) both.0 ∙ both.1)

pub round-last :
    (order done w : List ℕ) (d : Entries)
    → round order d done ≡ last_wave w
    → (w ≡ keep (dict_has d) order) × (keep (is_ready d done) order ≡ [])
unfolding round
round-last order done w d h = from (keep (is_ready d done) order) h
  where
    from :
        (ready : List ℕ)
        → round_of ready order d ≡ last_wave w
        → (w ≡ keep (dict_has d) order) × (ready ≡ [])
    from [] e = ground arith
    from (x ∷ xs) e = absurd (ground arith)

pub round-raised :
    (order done : List ℕ) (st : ℕ) (d : Entries)
    → round order d done ≡ raised st
    → delete_all (keep (is_ready d done) order) d ≡ missing st
unfolding round delete_all
round-raised order done st d h = from (keep (is_ready d done) order) h
  where
    from : (ready : List ℕ) → round_of ready order d ≡ raised st → delete_all ready d ≡ missing st
    from [] e = absurd (ground arith)
    from (x ∷ xs) e = ground arith

-- A proof rule for the loop: what holds of each way in which a round can end holds of the outcome,
-- and the loop is never out of fuel.
pub record Rule (order : List ℕ) (P : Entries → List ℕ → Outcome → Type 0) : Type 0 where
  pub finish : (done : List ℕ) → P [] done (waves [])
  pub last :
      (d : Entries) (done w : List ℕ) → round order d done ≡ last_wave w → P d done (waves (w ∷ []))
  pub next :
      (d rest : Entries) (done w : List ℕ) (o : Outcome)
      → round order d done ≡ next_wave w rest
      → P rest (done ++ w) o
      → P d done (cons_wave w o)
  pub failed :
      (d : Entries) (done : List ℕ) (st : ℕ)
      → round order d done ≡ raised st
      → P d done (key_error st)

pub wave_loop_ind :
    {order : List ℕ} {P : Entries → List ℕ → Outcome → Type 0} (rule : Rule order P) (fuel : ℕ)
    (d : Entries) (done : List ℕ)
    → length d ≤ fuel
    → P d done (wave_loop fuel order d done)
unfolding wave_loop
wave_loop_ind rule fuel [] done h = rule.finish done
wave_loop_ind rule zero (x ∷ xs) done h = absurd (omega arith)
wave_loop_ind {order} {P} rule (suc fuel) (x ∷ xs) done h =
    go (round order (x ∷ xs) done) refl λ w rest fits. wave_loop_ind rule fuel rest (done ++ w) fits
  where
    go :
        (r : Round)
        → round order (x ∷ xs) done ≡ r
        → ((w : List ℕ) (rest : Entries)
            → length rest ≤ fuel
            → P rest (done ++ w) (wave_loop fuel order rest (done ++ w)))
        → P (x ∷ xs) done (elim r [
          | last_wave w ↦ waves (w ∷ [])
          | next_wave w rest ↦ cons_wave w (wave_loop fuel order rest (done ++ w))
          | raised st ↦ key_error st
        ])
    go (last_wave w) q ih = rule.last (x ∷ xs) done w q
    go (raised st) q ih = rule.failed (x ∷ xs) done st q
    go (next_wave w rest) q ih =
        rule.next (x ∷ xs) rest done w _ q
          (ih w rest (omega (arith, length-round order done w (x ∷ xs) rest q)))

-- What the waves of an outcome are, if it has them.
abbrev pub OnWaves : (List (List ℕ) → Type 0) → Outcome → Type 0
OnWaves P (waves ws) = P ws
OnWaves P (key_error st) = Unit
OnWaves P spent = ⊥
