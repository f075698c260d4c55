-- ===== src/Theater/Strings.antt =====
-- A property of all the strings of a tree passes through every step of the build; that no string
-- holds a double quote is one that the lexer establishes.
use tug.Base.{ℕ, zero, suc, Bool, true, false, List, [], ◌∷◌, ◌≡◌, inl, inr, All, Bool-cases}
use tug.Base.Text.{Text}
use tug.Base.Result.{ok}
use tug.Theater.KeyValues.{Kv, Children, leaf, block, nil, cons, ◌+++◌, copy-id, same_name, name_of}
use tug.Theater.Lexer.{Stream, done, fails, open_brace, close_brace, str}
use tug.Theater.Parser.{Frame, parse_children}
use tug.Theater.Merge.{
  absorb, nth, pick, unplaced, arrange, merge, merge_children, mem_index, cons?,
}
use mathlib.Core.Path.{subst}

module _ (P : Text → Type 0) where
  -- P holds of every name and value.
  abbrev mutual
    pub Strings : Kv → Type 0
    Strings (leaf n v) = P n × P v
    Strings (block n cs) = P n × StringsAll cs

    pub StringsAll : Children → Type 0
    StringsAll nil = Unit
    StringsAll (cons c cs) = Strings c × StringsAll cs

  abbrev pub StreamStrings : Stream → Type 0
  StreamStrings done = Unit
  StreamStrings (fails e) = Unit
  StreamStrings (open_brace l k) = StreamStrings k
  StreamStrings (close_brace l k) = StreamStrings k
  StreamStrings (str s l k) = P s × StreamStrings k

  abbrev FrameStrings : Frame → Type 0
  FrameStrings f = P f.key × StringsAll f.out

  append-StringsAll : (cs ds : Children) → StringsAll cs → StringsAll ds → StringsAll (cs +++ ds)
  unfolding ◌+++◌
  append-StringsAll nil ds hs ht = ht
  append-StringsAll (cons c cs) ds hs ht = (hs.0, append-StringsAll cs ds hs.1 ht)

  -- The parser puts the strings of its tokens into the tree, and no other.
  pub parse_children-StringsAll :
      (path : Text) (frames : List Frame) (out : Children) (toks : Stream) {cs : Children}
      → All FrameStrings frames
      → StringsAll out
      → StreamStrings toks
      → parse_children path frames out toks ≡ ok cs
      → StringsAll cs
  unfolding parse_children
  parse_children-StringsAll path frames out (fails e) hf ho ht h = cc
  parse_children-StringsAll path [] out done hf ho ht h = subst StringsAll (cc) ho
  parse_children-StringsAll path (f ∷ fs) out done hf ho ht h = cc
  parse_children-StringsAll path [] out (close_brace l toks) hf ho ht h = cc
  parse_children-StringsAll path (f ∷ fs) out (close_brace l toks) hf ho ht h =
      parse_children-StringsAll path fs _ toks hf.1
        (append-StringsAll f.out _ hf.0.1 ((hf.0.0, ho), tt)) ht h
  parse_children-StringsAll path frames out (open_brace l toks) hf ho ht h = cc
  parse_children-StringsAll path frames out (str k l done) hf ho ht h = cc
  parse_children-StringsAll path frames out (str k l (fails e)) hf ho ht h = cc
  parse_children-StringsAll path frames out (str k l (open_brace m toks)) hf ho ht h =
      parse_children-StringsAll path _ nil toks ((ht.0, ho), hf) tt ht.1 h
  parse_children-StringsAll path frames out (str k l (str v m toks)) hf ho ht h =
      parse_children-StringsAll path frames _ toks hf
        (append-StringsAll out _ ho ((ht.0, ht.1.0), tt)) ht.1.1 h
  parse_children-StringsAll path frames out (str k l (close_brace m toks)) hf ho ht h = cc

  absorb-StringsAll :
      (b : Kv) (into : Kv → Kv) (cs : Children)
      → Strings b
      → ((d : Kv) → Strings d → Strings (into d))
      → StringsAll cs
      → StringsAll (absorb b into cs)
  unfolding absorb
  absorb-StringsAll b into nil hb hi hs = (rw copy-id hb, tt)
  absorb-StringsAll b into (cons d ds) hb hi hs = elim (Bool-cases (same_name (name_of b) d)) [
    | inl e ↦ rw e (hi d hs.0, hs.1)
    | inr e ↦ rw e (hs.0, absorb-StringsAll b into ds hb hi hs.1)
  ]

  nth-cons? :
      (cs : Children) (i : ℕ) (ds : Children)
      → StringsAll cs
      → StringsAll ds
      → StringsAll (cons? (nth cs i) ds)
  unfolding nth
  nth-cons? nil i ds hs ht = ht
  nth-cons? (cons c cs) zero ds hs ht = (hs.0, ht)
  nth-cons? (cons c cs) (suc i) ds hs ht = nth-cons? cs i ds hs.1 ht

  pick-StringsAll : (is : List ℕ) (cs : Children) → StringsAll cs → StringsAll (pick is cs)
  unfolding pick
  pick-StringsAll [] cs hs = tt
  pick-StringsAll (i ∷ is) cs hs = nth-cons? cs i _ hs (pick-StringsAll is cs hs)

  unplaced-StringsAll :
      (k : ℕ) (placed : List ℕ) (cs : Children) → StringsAll cs → StringsAll (unplaced k placed cs)
  unfolding unplaced
  unplaced-StringsAll k placed nil hs = tt
  unplaced-StringsAll k placed (cons c cs) hs = elim (Bool-cases (mem_index k placed)) [
    | inl e ↦ rw e (unplaced-StringsAll (suc k) placed cs hs.1)
    | inr e ↦ rw e (hs.0, unplaced-StringsAll (suc k) placed cs hs.1)
  ]

  arrange-StringsAll :
      (ordered : Bool) (cs : Children) (placed : List ℕ)
      → StringsAll cs
      → StringsAll (arrange ordered (cs, placed))
  unfolding arrange
  arrange-StringsAll false cs placed hs = hs
  arrange-StringsAll true cs placed hs =
      append-StringsAll (pick placed cs) _ (pick-StringsAll placed cs hs)
        (unplaced-StringsAll 0 placed cs hs)

  mutual
    unfolding merge

    merge_keeps :
        (this base : Kv) (depth : ℕ) → Strings base → Strings this → Strings (merge this base depth)
    merge_keeps (leaf n v) base depth hb ht = ht
    merge_keeps (block n cs) (leaf m v) depth hb ht = (ht.0, arrange-StringsAll _ cs [] ht.1)
    merge_keeps (block n cs) (block m bs) depth hb ht =
        (ht.0, arrange-StringsAll _ _ _ (merge_children_keeps cs [] bs (suc depth) hb.1 ht.1))

    merge_children_keeps :
        (cs : Children) (placed : List ℕ) (bs : Children) (depth : ℕ)
        → StringsAll bs
        → StringsAll cs
        → StringsAll (merge_children cs placed bs depth).0
    merge_children_keeps cs placed nil depth hb ht = ht
    merge_children_keeps cs placed (cons b bs) depth hb ht =
        merge_children_keeps _ _ bs depth hb.1
          (absorb-StringsAll b _ cs hb.0 (λ d hd. merge_keeps d b depth hb.0 hd) ht)

  -- A merge puts together strings of the two trees.
  pub merge-Strings :
      (this base : Kv) (depth : ℕ) → Strings base → Strings this → Strings (merge this base depth)
  merge-Strings = merge_keeps
