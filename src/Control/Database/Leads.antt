-- ===== src/Control/Database/Leads.antt =====
-- What a service call leads to: a condition on its answer and the tables, or on the tables that it
-- leaves behind when it fails.
use wslvpn.Base.{◌≡◌, refl, Bool, true, false, Option, none, some, arith}
use wslvpn.Control.Database.{
  Database, AppError, Result, ok, err, Service, pure, fail, query, or_fail, execute, insert_unless,
  fail_if, ◌>>=◌,
}
use wslvpn.Control.Database.Keeps.{Keeps}

module _ {A : Type 0} (Q : A → Database → Type 0) (E : Database → Type 0) where
  abbrev pub Post : Result A → Database → Type 0
  Post (ok a) t = Q a t
  Post (err e) t = E t

pub record Leads {A : Type 0} (P : Database → Type 0) (Q : A → Database → Type 0)
    (E : Database → Type 0) (call : Service A) : Type 0 where
  pub post : (tables : Database) → P tables → Post Q E (call tables).0 (call tables).1

module _ {A : Type 0} {P E : Database → Type 0} {Q : A → Database → Type 0} where
  pub Leads-pure : (a : A) → ((t : Database) → P t → Q a t) → Leads P Q E (pure a)
  unfolding pure
  Leads-pure a h = record { post = h }

  pub Leads-fail : (e : AppError) → ((t : Database) → P t → E t) → Leads P Q E (fail e)
  unfolding fail
  Leads-fail e h = record { post = h }

  pub Leads-query : (f : Database → A) → ((t : Database) → P t → Q (f t) t) → Leads P Q E (query f)
  unfolding query
  Leads-query f h = record { post = h }

  pub Leads-or_fail :
      (o : Option A) (e : AppError)
      → ((t : Database) → P t → E t)
      → ((a : A) → o ≡ some a → (t : Database) → P t → Q a t)
      → Leads P Q E (or_fail o e)
  unfolding or_fail
  Leads-or_fail none e failed found = Leads-fail e failed
  Leads-or_fail (some a) e failed found = Leads-pure a (found a refl)

  -- A failed call is somewhere in what the invariant allows.
  pub Leads-Keeps :
      (call : Service A)
      → Keeps P call
      → ((t : Database) → P t → E t)
      → ((a : A) (t : Database) → P t → Q a t)
      → Leads P Q E call
  Leads-Keeps call k failed answered = record { post = λ t h. finish (call t).0 (k.after t h) }
    where
      finish : (r : Result A) {s : Database} → P s → Post Q E r s
      finish (ok a) {s} p = answered a s p
      finish (err e) {s} p = failed s p

module _ {P E : Database → Type 0} {Q : Unit {0} → Database → Type 0} where
  pub Leads-fail_if :
      (b : Bool) (e : AppError)
      → ((t : Database) → P t → E t)
      → (b ≡ false → (t : Database) → P t → Q tt t)
      → Leads P Q E (fail_if b e)
  unfolding fail_if
  Leads-fail_if true e failed passed = Leads-fail e failed
  Leads-fail_if false e failed passed = Leads-pure tt (passed refl)

  pub Leads-execute :
      (f : Database → Database) → ((t : Database) → P t → Q tt (f t)) → Leads P Q E (execute f)
  unfolding execute
  Leads-execute f h = record { post = h }

  pub Leads-insert_unless :
      (clash : Database → Bool) (f : Database → Database)
      → ((t : Database) → P t → E t)
      → ((t : Database) → clash t ≡ false → P t → Q tt (f t))
      → Leads P Q E (insert_unless clash f)
  unfolding insert_unless
  Leads-insert_unless clash f failed inserted = record {
    post = λ t h. ground (arith, failed t, inserted t);
  }

module _ {A B : Type 0} {E : Database → Type 0} {Q : B → Database → Type 0}
    (R : A → Database → Type 0) where
  next_step :
      (r : Result A) (f : A → Service B) (t : Database)
      → Post R E r t
      → ((a : A) → Leads (R a) Q E (f a))
      → Post Q E (((λ (s : Database). (r, s)) >>= f) t).0 (((λ (s : Database). (r, s)) >>= f) t).1
  unfolding ◌>>=◌
  next_step (ok a) f t h rest = (rest a).post t h
  next_step (err e) f t h rest = h

module _ {A B : Type 0} {P E : Database → Type 0} {Q : B → Database → Type 0}
    (R : A → Database → Type 0) where
  -- The condition between a step and the rest of the call.
  pub Leads-bind :
      (m : Service A) (f : A → Service B)
      → Leads P R E m
      → ((a : A) → Leads (R a) Q E (f a))
      → Leads P Q E (m >>= f)
  unfolding ◌>>=◌
  Leads-bind m f first rest = record {
    post = λ t h. let (r, s) = m t in next_step R r f s (first.post t h) rest;
  }

-- A condition that holds before, and afterwards whatever happened.
pub Keeps-of_Leads :
    {A : Type 0} {P : Database → Type 0} (call : Service A) → Leads P (λ _. P) P call → Keeps P call
Keeps-of_Leads {A} {P} call leads = record { after = λ t h. finish (call t).0 (leads.post t h) }
  where
    finish : (r : Result A) {s : Database} → Post {A = A} (λ _. P) P r s → P s
    finish (ok a) h = h
    finish (err e) h = h
