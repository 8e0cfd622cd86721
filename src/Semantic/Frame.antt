-- ===== src/Semantic/Frame.antt =====
-- What the analysis of a statement leaves as it is.
pub mod Parts
pub mod Lets
pub mod Statements
pub mod Items
use nexc.Prelude.{
  ℕ, zero, suc, ◌+◌, ◌-◌, ◌≤◌, ◌≡◌, refl, sym, ap, ◌∙◌, Bool, true, false, not, ◌||◌, Option, none,
  some, List, [], ◌∷◌, Bytes, arith,
}
use nexc.Source.{SourceSpan}
use nexc.Semantic.State.{
  Analyzer, Analysis, DefAssignReason, ◌>>=◌, ◌>>◌, pure, done, gets, modify, branch, when, error,
  push_scope,
}
use nexc.Semantic.Scopes.{rest_of, head_or_empty, forget_ids, pop_scope}
use nexc.Semantic.Reports.{Grows, Grows-refl, Grows-trans, Quiet, Sound}

-- Messages are only added, the tables of the module, the depth of loops and the scopes around the
-- innermost one are the same, and ids are not given twice.
pub record Frame (s t : Analyzer) : Type 0 where
  pub grows : Grows s.diagnostics t.diagnostics
  pub depth : t.loop_depth ≡ s.loop_depth
  pub return_type : t.current_return_type ≡ s.current_return_type
  pub functions : t.functions ≡ s.functions
  pub globals : t.globals ≡ s.globals
  pub outer_scopes : rest_of t.scopes ≡ rest_of s.scopes
  pub outer_ids : rest_of t.scope_binding_ids ≡ rest_of s.scope_binding_ids
  pub newer : s.next_binding_id ≤ t.next_binding_id

pub Frame-refl : (s : Analyzer) → Frame s s
Frame-refl s = record {
  grows = Grows-refl s.diagnostics;
  depth = refl;
  return_type = refl;
  functions = refl;
  globals = refl;
  outer_scopes = refl;
  outer_ids = refl;
  newer = omega arith;
}

pub Frame-trans : {s t u : Analyzer} → Frame s t → Frame t u → Frame s u
Frame-trans x y = record {
  grows = Grows-trans x.grows y.grows;
  depth = y.depth ∙ x.depth;
  return_type = y.return_type ∙ x.return_type;
  functions = y.functions ∙ x.functions;
  globals = y.globals ∙ x.globals;
  outer_scopes = y.outer_scopes ∙ x.outer_scopes;
  outer_ids = y.outer_ids ∙ x.outer_ids;
  newer = let p = x.newer in let q = y.newer in omega arith;
}

-- A state that differs in its messages only.
Frame-report :
    (s : Analyzer) (bag : _) → Grows s.diagnostics bag → Frame s (record s { diagnostics = bag })
Frame-report s bag h = record {
  grows = h;
  depth = refl;
  return_type = refl;
  functions = refl;
  globals = refl;
  outer_scopes = refl;
  outer_ids = refl;
  newer = omega arith;
}

pub Frame-Quiet : {s t : Analyzer} → Quiet s t → Frame s t
Frame-Quiet {s} {t} q = rw q.same (Frame-report s t.diagnostics q.grows)

abbrev pub Keeps {ℓ} : {A : Type ℓ} → Analysis A → Type 0
Keeps m = (s : Analyzer) → Frame s (m s).1

module _ {ℓ κ} {A : Type ℓ} {B : Type κ} where
  pub Keeps-bind :
      (m : Analysis A) (f : A → Analysis B) → Keeps m → ((a : A) → Keeps (f a)) → Keeps (m >>= f)
  unfolding ◌>>=◌
  Keeps-bind m f hm hf s = Frame-trans (hm s) (hf (m s).0 (m s).1)

module _ {ℓ} {A : Type ℓ} where
  pub Keeps-pure : (a : A) → Keeps (pure a)
  Keeps-pure a s = Frame-refl s

  pub Keeps-gets : (f : Analyzer → A) → Keeps (gets f)
  Keeps-gets f s = Frame-refl s

  pub Keeps-branch : (b : Bool) (x y : Analysis A) → Keeps x → Keeps y → Keeps (branch b x y)
  unfolding branch
  Keeps-branch true x y hx hy = hx
  Keeps-branch false x y hx hy = hy

  pub Keeps-ask {κ} :
      {B : Type κ} (g : Analyzer → A) (f : A → Analysis B)
      → ((a : A) → Keeps (f a))
      → Keeps (gets g >>= f)
  unfolding ◌>>=◌
  Keeps-ask g f h s = h (g s) s

  pub Keeps-quiet : {P : A → Type 0} (m : Analysis A) → Sound P m → Keeps m
  Keeps-quiet m h s = Frame-Quiet (h s).quiet

pub Keeps-when : (b : Bool) (m : Analysis (Unit {0})) → Keeps m → Keeps (when b m)
Keeps-when b m h = Keeps-branch b m done h Frame-refl

pub Keeps-option {ℓ κ} :
    {A : Type ℓ} {B : Type κ} (o : Option A) (x : Analysis B) (f : A → Analysis B)
    → Keeps x
    → ((a : A) → Keeps (f a))
    → Keeps (elim o [ none ↦ x | some a ↦ f a ])
Keeps-option none x f hx hf = hx
Keeps-option (some a) x f hx hf = hf a

-- A change of what is known of assignments.
pub Frame-tables :
    (s : Analyzer) (definite : List ℕ) (reasons : List (ℕ × DefAssignReason))
    (elements : List (ℕ × List Bool)) (saw : Bool)
    → Frame s (record s {
      definite_assign = definite;
      def_assign_reasons = reasons;
      array_elem_assign = elements;
      saw_return_value = saw;
    })
Frame-tables s definite reasons elements saw = record {
  grows = Grows-refl s.diagnostics;
  depth = refl;
  return_type = refl;
  functions = refl;
  globals = refl;
  outer_scopes = refl;
  outer_ids = refl;
  newer = omega arith;
}

-- The tables that `pop_scope` clears.
pub forget_ids-kept :
    (ids : List ℕ) (s : Analyzer)
    → forget_ids ids s ≡ record s {
      definite_assign = (forget_ids ids s).definite_assign;
      array_elem_assign = (forget_ids ids s).array_elem_assign;
      def_assign_reasons = (forget_ids ids s).def_assign_reasons;
    }
unfolding forget_ids
forget_ids-kept [] s = refl
forget_ids-kept (id ∷ ids) s = forget_ids-kept ids _

abbrev pub deeper : Analyzer → Analyzer
deeper s = record s { loop_depth = s.loop_depth + 1 }

abbrev pub shallower : Analyzer → Analyzer
shallower s = record s { loop_depth = s.loop_depth - 1 }

pub Frame-deeper : {s t : Analyzer} → Frame s t → Frame (deeper s) (deeper t)
Frame-deeper x = record {
  grows = x.grows;
  depth = let d = x.depth in omega arith;
  return_type = x.return_type;
  functions = x.functions;
  globals = x.globals;
  outer_scopes = x.outer_scopes;
  outer_ids = x.outer_ids;
  newer = x.newer;
}

pub Frame-shallower : {s t : Analyzer} → Frame (deeper s) t → Frame s (shallower t)
Frame-shallower x = record {
  grows = x.grows;
  depth = let d = x.depth in omega arith;
  return_type = x.return_type;
  functions = x.functions;
  globals = x.globals;
  outer_scopes = x.outer_scopes;
  outer_ids = x.outer_ids;
  newer = x.newer;
}

-- A scope that is closed leaves exactly the scopes that it was opened in.
pub Frame-pop :
    {s t : Analyzer}
    → Frame (push_scope s) t
    → Frame s (pop_scope t)
      × ((pop_scope t).scopes ≡ s.scopes)
      × ((pop_scope t).scope_binding_ids ≡ s.scope_binding_ids)
unfolding push_scope pop_scope
Frame-pop {s} {t} x =
    let ids = head_or_empty t.scope_binding_ids in
    let kept = forget_ids-kept ids t in
    let scopes : rest_of (forget_ids ids t).scopes ≡ s.scopes =
      ap (λ (w : Analyzer). rest_of w.scopes) kept ∙ x.outer_scopes in
    let binding_ids : rest_of (forget_ids ids t).scope_binding_ids ≡ s.scope_binding_ids =
      ap (λ (w : Analyzer). rest_of w.scope_binding_ids) kept ∙ x.outer_ids in
    (
      record {
        grows = rw (ap (λ (w : Analyzer). w.diagnostics) kept) x.grows;
        depth = ap (λ (w : Analyzer). w.loop_depth) kept ∙ x.depth;
        return_type = ap (λ (w : Analyzer). w.current_return_type) kept ∙ x.return_type;
        functions = ap (λ (w : Analyzer). w.functions) kept ∙ x.functions;
        globals = ap (λ (w : Analyzer). w.globals) kept ∙ x.globals;
        outer_scopes = ap rest_of scopes;
        outer_ids = ap rest_of binding_ids;
        newer = rw (ap (λ (w : Analyzer). w.next_binding_id) kept) x.newer;
      },
      scopes,
      binding_ids,
    )

-- From a state that `opened` has prepared, back to a frame of the state before.
abbrev pub From {ℓ} : {A : Type ℓ} → (Analyzer → Analyzer) → Analysis A → Type 0
From opened m = (s t : Analyzer) → Frame (opened s) t → Frame s (m t).1

module _ {ℓ κ} {A : Type ℓ} {B : Type κ} (opened : Analyzer → Analyzer) where
  pub From-bind :
      (m : Analysis A) (f : A → Analysis B)
      → Keeps m
      → ((a : A) → From opened (f a))
      → From opened (m >>= f)
  unfolding ◌>>=◌
  From-bind m f hm hf s t x = hf (m t).0 s (m t).1 (Frame-trans x (hm t))

module _ {ℓ} {B : Type ℓ} where
  pub Keeps-open :
      (f : Analyzer → Analyzer) (k : Unit {0} → Analysis B) → From f (k tt) → Keeps (modify f >>= k)
  unfolding ◌>>=◌
  Keeps-open f k h s = h s (f s) (Frame-refl (f s))

  -- A change of the state between two stages.
  pub From-modify :
      (opened before : Analyzer → Analyzer) (f : Analyzer → Analyzer) (k : Unit {0} → Analysis B)
      → ((s t : Analyzer) → Frame (opened s) t → Frame (before s) (f t))
      → From before (k tt)
      → From opened (modify f >>= k)
  unfolding ◌>>=◌
  From-modify opened before f k change h s t x = h s (f t) (change s t x)

  pub From-Keeps : (m : Analysis B) → Keeps m → From (λ s. s) m
  From-Keeps m h s t x = Frame-trans x (h t)
