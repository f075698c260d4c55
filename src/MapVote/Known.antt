-- ===== src/MapVote/Known.antt =====
-- What it is for an item to be in the index of fastdl/tools/mapvote_images.py.
use tug.Base.{
  true, false, [], ◌∷◌, ◌++◌, Option, none, some, ◌≡◌, refl, ◌⊎◌, inl, inr, All, All-imp,
  Option-cases, arith,
}
use tug.Base.Text.{Text, mem_text, text_eq_refl}
use tug.Base.Dict
use tug.Base.Dict.{Dict, keys}
use tug.Base.Entries.{Finds, Finds-update}
use tug.Workshop.Lock.{Item}
use tug.MapVote.Index.{Indexed, IndexError, entry_of, has_textures, is_stale}
use tug.MapVote.{Scan}
use tug.Content.Lumps.{BspError}
use tug.Base.Result.{Result, ok, raised, too_deep, ok_injective, ◌>>=◌}
use mathlib.Core.Path.{subst}

abbrev pub Has : Indexed → Type 0
Has entry = has_textures entry.textures ≡ true

-- The index has an entry with textures for the item.
abbrev pub Known : Dict Indexed → Text → Type 0
Known idx i = Finds Has i idx

-- An item is in the index, or among those that are left.
abbrev pub Settled : Dict Indexed → Dict Item → Text × Item → Type 0
Settled idx left e = Known idx e.0 ⊎ (mem_text e.0 (keys left) ≡ true)

pub Settled-later :
    (idx : Dict Indexed) (e x : Text × Item) (left : Dict Item)
    → Settled idx left e
    → Settled idx (x ∷ left) e
unfolding mem_text
Settled-later idx e x left (inl known) = inl known
Settled-later idx e x left (inr stays) = inr (ground (arith, stays))

pub Settled-last :
    (idx : Dict Indexed) (e : Text × Item) (first last : Dict Item)
    → Settled idx last e
    → Settled idx (first ++ last) e
Settled-last idx e [] last h = h
Settled-last idx e (x ∷ first) last h =
    Settled-later idx e x (first ++ last) (Settled-last idx e first last h)

mem_text-first :
    (i : Text) (first last : Dict Item)
    → mem_text i (keys first) ≡ true
    → mem_text i (keys (first ++ last)) ≡ true
unfolding mem_text
mem_text-first i [] last h = cc
mem_text-first i ((j, item) ∷ first) last h = ground (arith, mem_text-first i first last, h)

pub Settled-first :
    (idx idx' : Dict Indexed) (e : Text × Item)
    → (Known idx e.0 → Known idx' e.0)
    → (first last : Dict Item) → Settled idx first e
    → Settled idx' (first ++ last) e
Settled-first idx idx' e keeps first last (inl known) = inl (keeps known)
Settled-first idx idx' e keeps first last (inr stays) = inr (mem_text-first e.0 first last stays)

pub Known-set :
    (i j : Text) (entry : Indexed) (idx : Dict Indexed)
    → Has entry
    → Known idx i
    → Known (Dict.update j (λ _. entry) idx) i
Known-set i j entry idx has known = Finds-update Has i j _ idx (λ e was. has) known

abbrev pub HasIfAny : Option Indexed → Type 0
HasIfAny none = Unit
HasIfAny (some entry) = Has entry

pub entry_of-Has :
    (manifest : Text) (found : Result BspError Scan) (entry : Indexed)
    → entry_of manifest found ≡ ok entry
    → Has entry
unfolding entry_of
entry_of-Has manifest (ok found) entry made = subst Has (ok_injective made) refl
entry_of-Has manifest (raised e) entry made = cc
entry_of-Has manifest too_deep entry made = cc

-- What a step over items leaves: the index, and those that are still missing.
abbrev pub Step : Type 0
Step = Result IndexError (Dict Indexed × Dict Item)

-- Every item of a list is settled where a step succeeds.
abbrev pub Settles : Step → Dict Item → Type 0
Settles (ok r) items = All (Settled r.0 r.1) items
Settles (raised e) items = Unit
Settles too_deep items = Unit

-- A step that succeeds keeps the items that the index has.
abbrev pub Keeps : Step → Text → Type 0
Keeps (ok r) i = Known r.0 i
Keeps (raised e) i = Unit
Keeps too_deep i = Unit

pub Keeps-ok :
    (m : Step) (r : Dict Indexed × Dict Item) (i : Text) → m ≡ ok r → Keeps m i → Known r.0 i
Keeps-ok m r i e h = subst (λ (x : Step). Keeps x i) e h

pub Settles-ok :
    (m : Step) (r : Dict Indexed × Dict Item) (items : Dict Item)
    → m ≡ ok r
    → Settles m items
    → All (Settled r.0 r.1) items
Settles-ok m r items e h = subst (λ (x : Step). Settles x items) e h

-- The item that is missing joins those that the rest of the items leaves.
abbrev pub with_missing : Text × Item → Step → Step
with_missing e m = m >>= λ rest. ok (rest.0, e ∷ rest.1)

pub with_missing-Keeps :
    (e : Text × Item) (m : Step) (i : Text) → Keeps m i → Keeps (with_missing e m) i
with_missing-Keeps e (ok rest) i h = h
with_missing-Keeps e (raised x) i h = tt
with_missing-Keeps e too_deep i h = tt

pub with_missing-Settles :
    (e : Text × Item) (m : Step) (items : Dict Item)
    → Settles m items
    → Settles (with_missing e m) (e ∷ items)
unfolding mem_text
with_missing-Settles e (ok rest) items h =
    (inr (rw (text_eq_refl e.0) refl), All-imp _ _ items (λ x. Settled-later rest.0 x e rest.1) h)
with_missing-Settles e (raised x) items h = tt
with_missing-Settles e too_deep items h = tt

-- The items that are settled after the item that a step begins with has been indexed.
pub Settles-indexed :
    (e : Text × Item) (m : Step) (items : Dict Item)
    → Keeps m e.0
    → Settles m items
    → Settles m (e ∷ items)
Settles-indexed e (ok rest) items known h = (inl known, h)
Settles-indexed e (raised x) items known h = tt
Settles-indexed e too_deep items known h = tt

pub >>=-Keeps :
    {A : Type 0} (m : Result IndexError A) (next : A → Step) (i : Text)
    → ((a : A) → m ≡ ok a → Keeps (next a) i)
    → Keeps (m >>= next) i
>>=-Keeps (ok a) next i h = h a refl
>>=-Keeps (raised e) next i h = tt
>>=-Keeps too_deep next i h = tt

pub >>=-Settles :
    {A : Type 0} (m : Result IndexError A) (next : A → Step) (items : Dict Item)
    → ((a : A) → m ≡ ok a → Settles (next a) items)
    → Settles (m >>= next) items
>>=-Settles (ok a) next items h = h a refl
>>=-Settles (raised e) next items h = tt
>>=-Settles too_deep next items h = tt

pub Settled-nothing : (idx : Dict Indexed) (e : Text × Item) → Settled idx [] e → Known idx e.0
unfolding mem_text
Settled-nothing idx e (inl known) = known
Settled-nothing idx e (inr stays) = cc

pub fresh-Known : (idx : Dict Indexed) (e : Text × Item) → is_stale idx e ≡ false → Known idx e.0
unfolding is_stale
fresh-Known idx (i, item) fresh = elim (Option-cases (Dict.get i idx)) [
  | inl absent ↦ ground (arith, fresh, absent)
  | inr (entry, at) ↦ (entry, at, ground (arith, fresh, at))
]

pub All-own_key :
    (items : Dict Item) → All (λ (e : Text × Item). mem_text e.0 (keys items) ≡ true) items
unfolding mem_text
All-own_key [] = tt
All-own_key ((i, item) ∷ items) = (
  rw (text_eq_refl i) refl,
  All-imp _ _ items (λ (e : Text × Item) h. ground (arith, h)) (All-own_key items),
)
