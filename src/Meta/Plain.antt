-- ===== src/Meta/Plain.antt =====
-- Inode tables as functions from places to rows: they have the laws that the operations rely on.
use cuckoofs.Base.{
  ℕ, Option, none, some, if◌then◌else◌, ◌≡◌, refl, ap, sym, ◌∙◌, Bool-cases, inl, inr, eq_of_some,
}
use cuckoofs.Path.Tree.{Name}
use cuckoofs.Meta.{Inode}
use cuckoofs.Meta.Tables.{InodeTables, same_row}
use cuckoofs.Meta.Effects.{same_row→≡}

abbrev pub Places : Type 0
Places = ℕ → ℕ → Name → Option Inode

-- A row bears the number and the name of its place.
abbrev pub placed : ℕ → Name → Option Inode → Option Inode
placed k n none = none
placed k n (some r) = some (record r { parentid_partid = k; name = n })

abbrev pub find_place : Places → ℕ → ℕ → Name → Option Inode
find_place t s k n = placed k n (t s k n)

abbrev pub put_place : Places → ℕ → Inode → Places
put_place t s r s' k' n' =
    if same_row s r.parentid_partid r.name s' k' n' then some r else t s' k' n'

abbrev pub insert_if_free : Places → ℕ → Inode → Option Inode → Option Places
insert_if_free t s r none = some (put_place t s r)
insert_if_free t s r (some q) = none

abbrev pub remove_place : Places → ℕ → ℕ → Name → Places
remove_place t s k n s' k' n' = if same_row s k n s' k' n' then none else t s' k' n'

pub find-put :
    (t : Places) (s : ℕ) (r : Inode) (s' k' : ℕ) (n' : Name)
    → find_place (put_place t s r) s' k' n'
      ≡ (if same_row s r.parentid_partid r.name s' k' n' then some r else find_place t s' k' n')
find-put t s r s' k' n' = elim (Bool-cases (same_row s r.parentid_partid r.name s' k' n')) [
  | inl same ↦
      let (es, ek, en) = same_row→≡ s r.parentid_partid r.name s' k' n' same in
      rw same (own r k' n' ek en)
  | inr other ↦ rw other refl
]
  where
    own :
        (r : Inode) (k : ℕ) (n : Name)
        → r.parentid_partid ≡ k
        → r.name ≡ n
        → placed k n (some r) ≡ some r
    own r k n ek en =
        ap (λ (j : ℕ). some (record r { parentid_partid = j; name = n })) (sym ek)
        ∙ ap (λ (m : Name). some (record r { name = m })) (sym en)

pub find-remove :
    (t : Places) (s k : ℕ) (n : Name) (s' k' : ℕ) (n' : Name)
    → find_place (remove_place t s k n) s' k' n'
      ≡ (if same_row s k n s' k' n' then none else find_place t s' k' n')
find-remove t s k n s' k' n' = elim (Bool-cases (same_row s k n s' k' n')) [
  | inl same ↦ rw same refl
  | inr other ↦ rw other refl
]

insert-eq :
    (t t' : Places) (s : ℕ) (r : Inode) (o : Option Inode)
    → insert_if_free t s r o ≡ some t'
    → t' ≡ put_place t s r
insert-eq t t' s r none e = sym (eq_of_some (put_place t s r) t' e)
insert-eq t t' s r (some q) e = absurd cc

pub own_place :
    (k : ℕ) (n : Name) (o : Option Inode) (r : Inode)
    → placed k n o ≡ some r
    → (r.parentid_partid ≡ k) × (r.name ≡ n)
own_place k n none r e = absurd cc
own_place k n (some q) r e =
    let same = eq_of_some (record q { parentid_partid = k; name = n }) r e in
    (ap (λ (x : Inode). x.parentid_partid) (sym same), ap (λ (x : Inode). x.name) (sym same))

pub insert_law :
    (t t' : Places) (s : ℕ) (r : Inode)
    → insert_if_free t s r (find_place t s r.parentid_partid r.name) ≡ some t'
    → (s' k' : ℕ) (n' : Name)
    → find_place t' s' k' n'
      ≡ (if same_row s r.parentid_partid r.name s' k' n' then some r else find_place t s' k' n')
insert_law t t' s r e s' k' n' =
    ap (λ (u : Places). find_place u s' k' n')
      (insert-eq t t' s r (find_place t s r.parentid_partid r.name) e)
    ∙ find-put t s r s' k' n'

abbrev pub plain_tables : InodeTables
plain_tables = record {
  Tables = Places;
  find = find_place;
  insert = λ t s r. insert_if_free t s r (find_place t s r.parentid_partid r.name);
  replace = put_place;
  remove = remove_place;
  insert-taken = λ t s r q at. ap (insert_if_free t s r) at;
  insert-free = λ t s r at. (put_place t s r, ap (insert_if_free t s r) at);
  find-insert = λ t t' s r e s' k' n'. insert_law t t' s r e s' k' n';
  find-replace = λ t s r q at s' k' n'. find-put t s r s' k' n';
  find-remove = λ t s k n s' k' n'. find-remove t s k n s' k' n';
  find-own = λ t s k n r at. own_place k n (t s k n) r at;
}
