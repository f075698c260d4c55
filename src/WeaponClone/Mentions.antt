-- ===== src/WeaponClone/Mentions.antt =====
-- What mentions() of tools/weapon-clone/generate.py finds.
use tug.Base.{
  ℕ, zero, suc, ◌+◌, ◌≤◌, List, [], ◌∷◌, ◌++◌, keep_if, some, ◌≡◌, refl, sym, ap, ◌∙◌, inl, inr,
  Bool-cases, append_assoc, append-nil, arith,
}
use tug.Base.Text.{Text}
use tug.WeaponClone.{Node, node, Nodes, no_nodes, more}
use tug.WeaponClone.Restate.{
  names, push_all, mentions_loop, count, count_all, mentions, or_no_nodes,
}

-- A node and all below it, each before its children and the last child first.
unfoldable mutual
  pub nodes_of : Node → List Node
  nodes_of (node h children) = node h children ∷ nodes_below children

  pub nodes_below : Nodes → List Node
  nodes_below no_nodes = []
  nodes_below (more n ns) = nodes_below ns ++ nodes_of n

on_stack : List Node → List Node
on_stack [] = []
on_stack (n ∷ stack) = nodes_of n ++ on_stack stack

left : List Node → ℕ
left [] = 0
left (n ∷ stack) = count n + left stack

push_all-on_stack :
    (ns : Nodes) (stack : List Node)
    → on_stack (push_all ns stack) ≡ nodes_below ns ++ on_stack stack
unfolding push_all on_stack nodes_below
push_all-on_stack no_nodes stack = refl
push_all-on_stack (more n ns) stack =
    push_all-on_stack ns (n ∷ stack)
    ∙ sym (append_assoc (nodes_below ns) (nodes_of n) (on_stack stack))

push_all-left :
    (ns : Nodes) (stack : List Node) → left (push_all ns stack) ≡ count_all ns + left stack
unfolding push_all left count
push_all-left no_nodes stack = omega arith
push_all-left (more n ns) stack = omega (arith, push_all-left ns (n ∷ stack))

-- With as much fuel as there are nodes on the stack, the loop ends and has found the mentions there.
loop-found :
    (fuel : ℕ) (name : Text) (stack out : List Node)
    → left stack ≤ fuel
    → mentions_loop fuel name stack out ≡ some (out ++ keep_if (names name) (on_stack stack))
unfolding mentions_loop on_stack left count nodes_of
loop-found fuel name [] out h = ap some (sym (append-nil out))
loop-found zero name (node hd children ∷ stack) out h = absurd (omega (arith, h))
loop-found (suc fuel) name (node hd children ∷ stack) out h =
    let next = push_all children stack in
    let fits : left next ≤ fuel = omega (arith, h, push_all-left children stack) in
    let later = keep_if (names name) (nodes_below children ++ on_stack stack) in
    let same : keep_if (names name) (on_stack next) ≡ later =
      ap (keep_if (names name)) (push_all-on_stack children stack) in
    elim (Bool-cases (names name (node hd children))) [
      | inl named ↦
          let found = out ++ node hd children ∷ [] in
          rw (mentions_loop, named)
            (loop-found fuel name next found fits
              ∙ ap some
                  (ap (λ l. found ++ l) same ∙ append_assoc out (node hd children ∷ []) later))
      | inr other ↦
          rw (mentions_loop, other)
            (loop-found fuel name next out fits ∙ ap some (ap (λ l. out ++ l) same))
    ]

-- As many rounds as there are nodes end the loop over the stack, and then mentions() holds exactly
-- the nodes whose key or value is the name, in the order in which the stack is emptied.
pub mentions-keep_if :
    (n : Node) (name : Text)
    → (mentions_loop (count n) name (n ∷ []) [] ≡ some (mentions n name))
      × (mentions n name ≡ keep_if (names name) (nodes_of n))
unfolding mentions or_no_nodes on_stack left
mentions-keep_if n name =
    let run : mentions_loop (count n) name (n ∷ []) [] ≡ some (keep_if (names name) (nodes_of n)) =
      loop-found (count n) name (n ∷ []) [] (omega arith)
      ∙ ap some (ap (keep_if (names name)) (append-nil (nodes_of n))) in
    let found : mentions n name ≡ keep_if (names name) (nodes_of n) = rw (mentions, run) refl in
    (run ∙ ap some (sym found), found)
