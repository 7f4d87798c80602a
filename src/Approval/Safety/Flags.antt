-- ===== src/Approval/Safety/Flags.antt =====
-- Flags in the safety check: their order and their case do not matter.
use mathlib.Core.List.{Permᴰ}
use taka_ma.Common.{
  ◌≡◌, refl, sym, ap, ◌∙◌, ℕ, Bool, true, [], ◌∷◌, ◌++◌, Text, CharTable, arith, lower_text, length,
  sorted, insert, all,
}
use taka_ma.Approval.Safety.{sorted_flags, is_flags, is_ascii_letter}

insert_comm : (a b : ℕ) (cs : Text) → insert a (insert b cs) ≡ insert b (insert a cs)
insert_comm a b [] = ground arith
insert_comm a b (c ∷ cs) = ground (arith, insert_comm a b cs)

abbrev insert_all : Text → Text → Text
insert_all [] l = l
insert_all (c ∷ cs) l = insert c (insert_all cs l)

sorted-append : (xs ys : Text) → sorted (xs ++ ys) ≡ insert_all xs (sorted ys)
sorted-append [] ys = refl
sorted-append (x ∷ xs) ys = ap (insert x) (sorted-append xs ys)

insert-insert_all : (a : ℕ) (xs l : Text) → insert a (insert_all xs l) ≡ insert_all xs (insert a l)
insert-insert_all a [] l = refl
insert-insert_all a (x ∷ xs) l =
    insert_comm a x (insert_all xs l) ∙ ap (insert x) (insert-insert_all a xs l)

insert_all_comm :
    (xs ys l : Text) → insert_all xs (insert_all ys l) ≡ insert_all ys (insert_all xs l)
insert_all_comm [] ys l = refl
insert_all_comm (x ∷ xs) ys l =
    ap (insert x) (insert_all_comm xs ys l) ∙ insert-insert_all x ys (insert_all xs l)

module _ (t : CharTable) where
  sorted-lower_cons :
      (c : ℕ) (cs : Text)
      → sorted (lower_text t (c ∷ cs)) ≡ insert_all (t.lower c) (sorted (lower_text t cs))
  sorted-lower_cons c cs = sorted-append (t.lower c) (lower_text t cs)

  sorted-Perm : {a b : Text} → Permᴰ a b → sorted (lower_text t a) ≡ sorted (lower_text t b)
  sorted-Perm Permᴰ.nil = refl
  sorted-Perm (Permᴰ.cons {a} {b} {l₁} {l₂} e p) =
      sorted-lower_cons a l₁
      ∙ ap (λ z. insert_all (t.lower a) z) (sorted-Perm p)
      ∙ ap (λ c. insert_all (t.lower c) (sorted (lower_text t l₂))) e
      ∙ sym (sorted-lower_cons b l₂)
  sorted-Perm (Permᴰ.swap {a} {b} {a'} {b'} {l} e f) =
      sorted-lower_cons a (b ∷ l)
      ∙ ap (λ z. insert_all (t.lower a) z) (sorted-lower_cons b l)
      ∙ insert_all_comm (t.lower a) (t.lower b) (sorted (lower_text t l))
      ∙ ap (λ c. insert_all (t.lower c) (insert_all (t.lower a) (sorted (lower_text t l)))) f
      ∙ ap (λ c. insert_all (t.lower a') (insert_all (t.lower c) (sorted (lower_text t l)))) e
      ∙ ap (λ z. insert_all (t.lower a') z) (sym (sorted-lower_cons b' l))
      ∙ sym (sorted-lower_cons a' (b' ∷ l))
  sorted-Perm (Permᴰ.trans p q) = sorted-Perm p ∙ sorted-Perm q

length-Perm : {a b : Text} → Permᴰ a b → length a ≡ length b
length-Perm Permᴰ.nil = refl
length-Perm (Permᴰ.cons e p) = ground (arith, length-Perm p)
length-Perm (Permᴰ.swap e f) = refl
length-Perm (Permᴰ.trans p q) = length-Perm p ∙ length-Perm q

all-Perm : (p : ℕ → Bool) {a b : Text} → Permᴰ a b → all p a ≡ all p b
all-Perm p Permᴰ.nil = refl
all-Perm p (Permᴰ.cons e d) = ground (arith, ap p e, all-Perm p d)
all-Perm p (Permᴰ.swap e f) = ground (arith, ap p e, ap p f)
all-Perm p (Permᴰ.trans d c) = all-Perm p d ∙ all-Perm p c

-- Two words of joined short flags with the same letters, in whatever order, become one word, so that
-- a rule on `-rf` is a rule on `-fr`.
pub sorted_flags-Perm :
    (t : CharTable) (a b : Text)
    → Permᴰ a b
    → is_flags (45 ∷ a) ≡ true
    → (sorted_flags t (45 ∷ a) ≡ sorted_flags t (45 ∷ b)) × (is_flags (45 ∷ b) ≡ true)
sorted_flags-Perm t a b p h =
    ground (arith, sorted-Perm t p, length-Perm p, all-Perm is_ascii_letter p)
