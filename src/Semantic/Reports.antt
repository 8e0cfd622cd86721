-- ===== src/Semantic/Reports.antt =====
-- Routines that do no more than report, and what holds of their value if no error is on record.
use nexc.Prelude.{
  ◌≡◌, Option, none, some, refl, sym, ap, ◌∙◌, Bool, true, false, List, [], ◌++◌, append_assoc,
  append-nil, Bytes, arith,
}
use nexc.Source.{SourceSpan}
use nexc.Diagnostic.{Diagnostic, DiagnosticBag, add, report_error, report_note}
use nexc.Semantic.State.{
  Analyzer, Analysis, ◌>>=◌, ◌>>◌, pure, done, gets, branch, when, error, note,
}

-- Messages are added behind those on record, and an error stays on record.
pub record Grows (a b : DiagnosticBag) : Type 0 where
  pub more : List Diagnostic
  pub added : b.diagnostics ≡ a.diagnostics ++ more
  pub kept : a.has_errors ≡ true → b.has_errors ≡ true

pub Grows-refl : (a : DiagnosticBag) → Grows a a
Grows-refl a = record { more = []; added = sym (append-nil a.diagnostics); kept = λ e. e }

pub Grows-trans : {a b c : DiagnosticBag} → Grows a b → Grows b c → Grows a c
Grows-trans {a} {b} {c} x y = record {
  more = x.more ++ y.more;
  added = y.added ∙ (ap (λ l. l ++ y.more) x.added ∙ append_assoc a.diagnostics x.more y.more);
  kept = λ e. y.kept (x.kept e);
}

-- The state is the same but for the messages.
pub record Quiet (s t : Analyzer) : Type 0 where
  pub same : t ≡ record s { diagnostics = t.diagnostics }
  pub grows : Grows s.diagnostics t.diagnostics

pub Quiet-refl : (s : Analyzer) → Quiet s s
Quiet-refl s = record { same = refl; grows = Grows-refl s.diagnostics }

pub Quiet-trans : {s t u : Analyzer} → Quiet s t → Quiet t u → Quiet s u
Quiet-trans {s} {t} {u} x y = record {
  same = y.same ∙ ap (λ (w : Analyzer). record w { diagnostics = u.diagnostics }) x.same;
  grows = Grows-trans x.grows y.grows;
}

-- A run from `s`: it only reports, and if no error is on record behind it, its value satisfies `P`.
pub record Run {ℓ} {A : Type ℓ} (P : A → Type 0) (s : Analyzer) (r : A × Analyzer) : Type ℓ where
  pub quiet : Quiet s r.1
  pub holds : r.1.diagnostics.has_errors ≡ false → P r.0

abbrev pub Sound {ℓ} : {A : Type ℓ} → (A → Type 0) → Analysis A → Type ℓ
Sound P m = (s : Analyzer) → Run P s (m s)

abbrev pub Always {ℓ} : {A : Type ℓ} → A → Type 0
Always a = Unit {0}

-- No error behind a run, so none before it.
pub no_error_before :
    {s t : Analyzer}
    → Quiet s t
    → t.diagnostics.has_errors ≡ false
    → s.diagnostics.has_errors ≡ false
no_error_before {s} {t} q e = let k = q.grows.kept in ground arith

module _ {ℓ κ} {A : Type ℓ} {B : Type κ} where
  pub Sound-bind :
      {P : A → Type 0} {Q : B → Type 0} (m : Analysis A) (f : A → Analysis B)
      → Sound P m
      → ((a : A) → Sound (λ b. P a → Q b) (f a))
      → Sound Q (m >>= f)
  unfolding ◌>>=◌
  Sound-bind m f hm hf s =
      let first = hm s in
      let second = hf (m s).0 (m s).1 in
      record {
        quiet = Quiet-trans first.quiet second.quiet;
        holds = λ e. second.holds e (first.holds (no_error_before second.quiet e));
      }

  -- Nothing is asked of the first value.
  pub Sound-then :
      {Q : B → Type 0} (m : Analysis A) (f : A → Analysis B)
      → Sound Always m
      → ((a : A) → Sound Q (f a))
      → Sound Q (m >>= f)
  Sound-then {Q} m f hm hf =
      Sound-bind m f hm
        λ a s. let r = hf a s in record { quiet = r.quiet; holds = λ e _. r.holds e }

module _ {ℓ} {A : Type ℓ} where
  pub Sound-weaken :
      {P Q : A → Type 0} (m : Analysis A) → ((a : A) → P a → Q a) → Sound P m → Sound Q m
  Sound-weaken m h x s =
      let r = x s in record { quiet = r.quiet; holds = λ e. h (m s).0 (r.holds e) }

  pub Sound-pure : {P : A → Type 0} (a : A) → P a → Sound P (pure a)
  Sound-pure a h s = record { quiet = Quiet-refl s; holds = λ _. h }

  pub Sound-gets : (f : Analyzer → A) → Sound Always (gets f)
  Sound-gets f s = record { quiet = Quiet-refl s; holds = λ _. tt }

  pub Sound-branch :
      {P : A → Type 0} (b : Bool) (x y : Analysis A)
      → (b ≡ true → Sound P x)
      → (b ≡ false → Sound P y)
      → Sound P (branch b x y)
  unfolding branch
  Sound-branch true x y hx hy = hx refl
  Sound-branch false x y hx hy = hy refl

pub Sound-done : Sound Always done
Sound-done = Sound-pure tt tt

-- Behind an error nothing is promised.
pub Sound-error :
    {P : Unit {0} → Type 0} (span : SourceSpan) (parts : List Bytes) → Sound P (error span parts)
unfolding error report_error add
Sound-error span parts s = record {
  quiet = record { same = refl; grows = record { more = _; added = refl; kept = λ _. refl } };
  holds = λ e. ground arith;
}

pub Sound-note : (span : SourceSpan) (parts : List Bytes) → Sound Always (note span parts)
unfolding note report_note add
Sound-note span parts s = record {
  quiet = record { same = refl; grows = record { more = _; added = refl; kept = λ e. e } };
  holds = λ _. tt;
}

-- Behind a refusal whatever is wanted holds.
pub Sound-refuse {ℓ} :
    {A : Type ℓ} {Q : A → Type 0} (span : SourceSpan) (parts : List Bytes) (m : Analysis A)
    → Sound Always m
    → Sound Q (error span parts >> m)
Sound-refuse {Q} span parts m h =
    Sound-bind {P = λ _. ⊥} _ _ (Sound-error span parts)
      λ _ s. let r = h s in record { quiet = r.quiet; holds = λ _ bad. absurd bad }

pub Sound-when : (b : Bool) (m : Analysis (Unit {0})) → Sound Always m → Sound Always (when b m)
Sound-when b m h = Sound-branch b m done (λ _. h) (λ _. Sound-done)

-- A reported test holds where no error is on record.
pub Sound-require :
    (b : Bool) (span : SourceSpan) (parts : List Bytes)
    → Sound (λ _. b ≡ true) (branch b done (error span parts))
Sound-require b span parts =
    Sound-branch b done (error span parts) (λ e. Sound-pure tt e) (λ _. Sound-error span parts)

-- A step on an optional value, by its cases.
pub Sound-option {ℓ κ} :
    {A : Type ℓ} {B : Type κ} {Q : B → Type 0} (o : Option A) (x : Analysis B) (f : A → Analysis B)
    → (o ≡ none → Sound Q x)
    → ((a : A) → o ≡ some a → Sound Q (f a))
    → Sound Q (elim o [ none ↦ x | some a ↦ f a ])
Sound-option none x f hx hf = hx refl
Sound-option (some a) x f hx hf = hf a refl
