-- ===== src/Theater/KeyValues.antt =====
-- The KeyValues tree of tools/theater-build/build.py (class KV) and the errors that the build
-- raises (KeyValuesError). `children is None` is the constructor `leaf`.
use tug.Base.{ℕ, ◌+◌, Bool, List, Option, none, some, if◌then◌else◌, ◌≡◌, refl}
use tug.Base.Text.{Text, lower, text_eq}

mutual
  pub data Kv : Type 0 where
    leaf : Text → Text → Kv
    block : Text → Children → Kv

  pub data Children : Type 0 where
    nil : Children
    cons : Kv → Children → Children

-- The messages of KeyValuesError, with what they are formatted with. `not_iterable` is the TypeError
-- that iterating `None` raises.
pub data Error : Type 0 where
  unterminated : Text → ℕ → Error
  conditional : Text → ℕ → Error
  end_inside_block : Text → Error
  unmatched : Text → ℕ → Error
  no_name : Text → ℕ → Error
  no_value : Text → ℕ → Text → Error
  closed_after_key : Text → ℕ → Text → Error
  base_not_found : Text → Error
  stray_keys : Text → List Text → Error
  top_blocks : Text → ℕ → Error
  base_name : Text → Text → Text → Text → Error
  has_quote : Text → Error
  not_iterable : Error

abbrev pub name_of : Kv → Text
name_of (leaf n v) = n
name_of (block n cs) = n

-- `kv.children or ()`
abbrev pub children_of : Kv → Children
children_of (leaf n v) = nil
children_of (block n cs) = cs

infixr 65 ◌+++◌
unfoldable pub ◌+++◌ : Children → Children → Children
nil +++ ds = ds
cons c cs +++ ds = cons c (cs +++ ds)

abbrev pub snoc : Children → Kv → Children
snoc cs c = cs +++ cons c nil

unfoldable pub count : Children → ℕ
count nil = 0
count (cons c cs) = count cs + 1

-- Kv.copy
unfoldable mutual
  pub copy : Kv → Kv
  copy (leaf n v) = leaf n v
  copy (block n cs) = block n (copy_all cs)

  pub copy_all : Children → Children
  copy_all nil = nil
  copy_all (cons c cs) = cons (copy c) (copy_all cs)

-- c.name.lower() == n.lower()
unfoldable pub same_name : Text → Kv → Bool
same_name n c = text_eq (lower (name_of c)) (lower n)

-- child(kv, name): the first child of that name, whatever its case
unfoldable pub first_named : Text → Children → Option Kv
unfolding same_name
first_named n nil = none
first_named n (cons c cs) = if same_name n c then some c else first_named n cs

unfoldable pub child : Kv → Text → Option Kv
unfolding first_named
child kv n = first_named n (children_of kv)

pub append_nil : (cs : Children) → cs +++ nil ≡ cs
unfolding ◌+++◌
append_nil nil = refl
append_nil (cons c cs) = rw (append_nil cs)

pub append_assoc : (ks bs cs : Children) → (ks +++ bs) +++ cs ≡ ks +++ (bs +++ cs)
unfolding ◌+++◌
append_assoc nil bs cs = refl
append_assoc (cons k ks) bs cs = rw (append_assoc ks bs cs)

-- A copy is the tree that it copies.
mutual
  unfolding copy

  copy_lem : (kv : Kv) → copy kv ≡ kv
  copy_lem (leaf n v) = refl
  copy_lem (block n cs) = rw (copy_all_lem cs)

  copy_all_lem : (cs : Children) → copy_all cs ≡ cs
  copy_all_lem nil = refl
  copy_all_lem (cons c cs) = rw (copy_lem c, copy_all_lem cs)

pub copy-id : (kv : Kv) → copy kv ≡ kv
copy-id kv = copy_lem kv
