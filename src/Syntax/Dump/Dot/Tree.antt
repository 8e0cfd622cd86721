-- ===== src/Syntax/Dump/Dot/Tree.antt =====
-- The DOT view of a syntax tree is a tree.
use nexc.Prelude.{
  ℕ, suc, ◌+◌, ◌≤◌, ◌<◌, ◌≡◌, ◌&&◌, Option, none, some, List, [], ◌∷◌, ◌++◌, Bytes, ltb, leb, ◌==◌,
  if◌then◌else◌, arith,
}
use nexc.Syntax.Dump.{◌then◌, nothing}
use nexc.Syntax.Dump.Dot.{
  DotLine, node_line, edge_line, Graph, Drawing, node, edge, leaf, parent, child,
}

-- How often the node `i` is declared.
unfoldable pub declared : ℕ → List DotLine → ℕ
declared i [] = 0
declared i (node_line id label ∷ ls) = (if id == i then 1 else 0) + declared i ls
declared i (edge_line from to label ∷ ls) = declared i ls

-- How often an edge leads to the node `i`.
unfoldable pub entered : ℕ → List DotLine → ℕ
entered i [] = 0
entered i (node_line id label ∷ ls) = entered i ls
entered i (edge_line from to label ∷ ls) = (if to == i then 1 else 0) + entered i ls

-- Each edge leads from a node to one with a greater number.
pub data Downward : List DotLine → Type 0 where
  no_line : Downward []
  at_node :
      {id : ℕ} {label : Bytes} {ls : List DotLine}
      → Downward ls
      → Downward (node_line id label ∷ ls)
  at_edge :
      {from to : ℕ} {label : Bytes} {ls : List DotLine}
      → from < to
      → Downward ls
      → Downward (edge_line from to label ∷ ls)

declared-append :
    (i : ℕ) (xs ys : List DotLine) → declared i (xs ++ ys) ≡ declared i xs + declared i ys
unfolding declared
declared-append i [] ys = omega arith
declared-append i (node_line id label ∷ xs) ys = omega (arith, declared-append i xs ys)
declared-append i (edge_line from to label ∷ xs) ys = declared-append i xs ys

entered-append : (i : ℕ) (xs ys : List DotLine) → entered i (xs ++ ys) ≡ entered i xs + entered i ys
unfolding entered
entered-append i [] ys = omega arith
entered-append i (node_line id label ∷ xs) ys = entered-append i xs ys
entered-append i (edge_line from to label ∷ xs) ys = omega (arith, entered-append i xs ys)

Downward-append :
    (xs : List DotLine) {ys : List DotLine} → Downward xs → Downward ys → Downward (xs ++ ys)
Downward-append [] no_line k = k
Downward-append (node_line id label ∷ xs) (at_node h) k = at_node (Downward-append xs h k)
Downward-append (edge_line from to label ∷ xs) (at_edge less h) k =
    at_edge less (Downward-append xs h k)

-- 1 for the numbers from `a` to before `b`, else 0.
abbrev pub within : ℕ → ℕ → ℕ → ℕ
within a b i = if leb a i && ltb i b then 1 else 0

-- What a part of the dump adds: each new number is declared once, and each from `first` on is
-- entered once.
pub record Adds (first : ℕ) (g g' : Graph) : Type 0 where
  pub more : g.next_id ≤ g'.next_id
  pub declares : (i : ℕ) → declared i g'.lines ≡ declared i g.lines + within g.next_id g'.next_id i
  pub enters : (i : ℕ) → entered i g'.lines ≡ entered i g.lines + within first g'.next_id i
  pub down : Downward g.lines → Downward g'.lines

-- A drawing gives a new root, with the lowest of the new numbers, that no edge enters yet.
pub data Rooted (g : Graph) : Option (ℕ × Graph) → Type 0 where
  rooted :
      {g' : Graph}
      → g.next_id < g'.next_id
      → Adds (suc g.next_id) g g'
      → Rooted g (some (g.next_id, g'))

pub record Draws (drawing : Drawing) : Type 0 where
  pub draws : (g : Graph) → Rooted g (drawing g)

pub data Below (g : Graph) : Option Graph → Type 0 where
  below : {g' : Graph} → Adds g.next_id g g' → Below g (some g')

-- What is drawn below the node `id`.
pub record Hangs (id : ℕ) (children : Graph → Option Graph) : Type 0 where
  pub hangs : (g : Graph) → id < g.next_id → Below g (children g)

Adds-node : (label : Bytes) (g : Graph) → Adds (suc g.next_id) g (node label g).1
unfolding node declared entered
Adds-node label g = record {
  more = omega arith;
  declares =
      λ i. (let split = declared-append i g.lines (node_line g.next_id label ∷ []) in ground arith);
  enters =
      λ i. (let split = entered-append i g.lines (node_line g.next_id label ∷ []) in ground arith);
  down = λ h. Downward-append g.lines h (at_node no_line);
}

pub leaf-Draws : (label : Bytes) → Draws (leaf label)
unfolding leaf node
leaf-Draws label = record { draws = λ g. rooted (omega arith) (Adds-node label g) }

Adds-trans :
    {first : ℕ} (g g' g'' : Graph)
    → first ≤ g'.next_id
    → Adds first g g'
    → Adds g'.next_id g' g''
    → Adds first g g''
Adds-trans {first} g g' g'' low a b =
    let m = a.more in
    let n = b.more in
    record {
      more = omega arith;
      declares = λ i. (let p = a.declares i in let q = b.declares i in ground arith);
      enters = λ i. (let p = a.enters i in let q = b.enters i in ground arith);
      down = λ h. b.down (a.down h);
    }

Below-Rooted :
    (label : Bytes) (g : Graph) {o : Option Graph}
    → Below (node label g).1 o
    → Rooted g (elim o [ none ↦ none | some g'' ↦ some (g.next_id, g'') ])
unfolding node
Below-Rooted label g (below {g' = g''} a) =
    let more = a.more in
    rooted (omega arith) (Adds-trans g (node label g).1 g'' (omega arith) (Adds-node label g) a)

pub parent-Draws :
    (label : Bytes) {children : ℕ → Graph → Option Graph}
    → ((id : ℕ) → Hangs id (children id))
    → Draws (parent label children)
unfolding parent node
parent-Draws label {children} hs = record {
  draws = λ g. Below-Rooted label g ((hs g.next_id).hangs (node label g).1 (omega arith));
}

-- The edge to the root of what was drawn.
Adds-edge :
    (id : ℕ) (role : Bytes) (g g' : Graph)
    → id < g.next_id
    → g.next_id < g'.next_id
    → Adds (suc g.next_id) g g'
    → Adds g.next_id g (edge id g.next_id role g')
unfolding edge declared entered
Adds-edge id role g g' known more a = record {
  more = omega arith;
  declares = λ i.
      (let split = declared-append i g'.lines (edge_line id g.next_id role ∷ []) in
        let before = a.declares i in ground arith);
  enters = λ i.
      (let split = entered-append i g'.lines (edge_line id g.next_id role ∷ []) in
        let before = a.enters i in ground arith);
  down = λ h. Downward-append g'.lines (a.down h) (at_edge known no_line);
}

Rooted-Below :
    (id : ℕ) (role : Bytes) (g : Graph) {o : Option (ℕ × Graph)}
    → id < g.next_id
    → Rooted g o
    → Below g (elim o [ none ↦ none | some r ↦ some (edge id r.0 role r.1) ])
unfolding edge
Rooted-Below id role g known (rooted {g'} more a) = below (Adds-edge id role g g' known more a)

pub child-Hangs :
    (id : ℕ) (role : Bytes) {drawing : Drawing} → Draws drawing → Hangs id (child id role drawing)
unfolding child
child-Hangs id role d = record { hangs = λ g known. Rooted-Below id role g known (d.draws g) }

pub nothing-Hangs : (id : ℕ) → Hangs id nothing
unfolding nothing
nothing-Hangs id = record {
  hangs = λ g known. below (record {
    more = omega arith;
    declares = λ i. ground arith;
    enters = λ i. ground arith;
    down = λ h. h;
  });
}

After-Below : (g g' : Graph) {o : Option Graph} → Adds g.next_id g g' → Below g' o → Below g o
After-Below g g' a (below {g' = g''} b) = below (Adds-trans g g' g'' a.more a b)

-- A new node with the edge to it, in front of what hangs on the node.
pub edge-node-Below :
    (id : ℕ) (role label : Bytes) (g : Graph) {o : Option Graph}
    → id < g.next_id
    → Below (edge id g.next_id role (node label g).1) o
    → Below g o
unfolding node edge
edge-node-Below id role label g known b =
    After-Below g (edge id g.next_id role (node label g).1)
      (Adds-edge id role g (node label g).1 known (omega arith) (Adds-node label g)) b

then-Below :
    {id : ℕ} (g : Graph) {o : Option Graph} {k : Graph → Option Graph}
    → id < g.next_id
    → Below g o
    → Hangs id k
    → Below g (elim o [ none ↦ none | some g' ↦ k g' ])
then-Below g known (below {g'} a) h =
    let more = a.more in After-Below g g' a (h.hangs g' (omega arith))

pub then-Hangs :
    {id : ℕ} {f k : Graph → Option Graph} → Hangs id f → Hangs id k → Hangs id (f then k)
unfolding ◌then◌
then-Hangs f k = record { hangs = λ g known. then-Below g known (f.hangs g known) k }
