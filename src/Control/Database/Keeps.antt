-- ===== src/Control/Database/Keeps.antt =====
-- Invariants of the tables, with a rule for each way to build a service call.
use wslvpn.Base.{◌≡◌, refl, Bool, true, false, Option, none, some, arith, if◌then◌else◌}
use wslvpn.Control.Database.{
  Database, AppError, Result, ok, err, Service, pure, fail, query, or_fail, execute, insert_unless,
  fail_if, ◌>>=◌,
}

-- The call leaves `P` true, whether it answers or fails.
pub record Keeps {A : Type 0} (P : Database → Type 0) (call : Service A) : Type 0 where
  pub after : (tables : Database) → P tables → P (call tables).1

module _ {A : Type 0} {P : Database → Type 0} where
  pub Keeps-pure : (a : A) → Keeps P (pure a)
  unfolding pure
  Keeps-pure a = record { after = λ t h. h }

  pub Keeps-fail : (e : AppError) → Keeps P (fail {A = A} e)
  unfolding fail
  Keeps-fail e = record { after = λ t h. h }

  pub Keeps-query : (f : Database → A) → Keeps P (query f)
  unfolding query
  Keeps-query f = record { after = λ t h. h }

  pub Keeps-or_fail : (o : Option A) (e : AppError) → Keeps P (or_fail o e)
  unfolding or_fail
  Keeps-or_fail none e = Keeps-fail e
  Keeps-or_fail (some a) e = Keeps-pure a

  pub Keeps-if : (b : Bool) (m n : Service A) → Keeps P m → Keeps P n → Keeps P (if b then m else n)
  Keeps-if true m n km kn = km
  Keeps-if false m n km kn = kn

module _ {P : Database → Type 0} where
  pub Keeps-fail_if : (b : Bool) (e : AppError) → Keeps P (fail_if b e)
  unfolding fail_if
  Keeps-fail_if true e = Keeps-fail e
  Keeps-fail_if false e = Keeps-pure tt

  pub Keeps-execute :
      (f : Database → Database) → ((t : Database) → P t → P (f t)) → Keeps P (execute f)
  unfolding execute
  Keeps-execute f kf = record { after = kf }

  -- The constraint did not stop the row.
  pub Keeps-insert_unless :
      (clash : Database → Bool) (f : Database → Database)
      → ((t : Database) → clash t ≡ false → P t → P (f t))
      → Keeps P (insert_unless clash f)
  unfolding insert_unless
  Keeps-insert_unless clash f kf = record { after = λ t h. ground (arith, kf t) }

module _ {A B : Type 0} {P : Database → Type 0} where
  -- The rest of the block may use that the option is there.
  pub Keeps-bind-or_fail :
      (o : Option A) (e : AppError) (f : A → Service B)
      → ((a : A) → o ≡ some a → Keeps P (f a))
      → Keeps P (or_fail o e >>= f)
  unfolding ◌>>=◌
  Keeps-bind-or_fail none e f kf = Keeps-fail e
  Keeps-bind-or_fail (some a) e f kf = kf a refl

  after_result :
      (r : Result A) (f : A → Service B) (t : Database)
      → P t
      → ((a : A) → Keeps P (f a))
      → P (((λ (s : Database). (r, s)) >>= f) t).1
  unfolding ◌>>=◌
  after_result (ok a) f t h kf = (kf a).after t h
  after_result (err e) f t h kf = h

  pub Keeps-bind :
      (m : Service A) (f : A → Service B)
      → Keeps P m
      → ((a : A) → Keeps P (f a))
      → Keeps P (m >>= f)
  unfolding ◌>>=◌
  Keeps-bind m f km kf = record {
    after = λ t h. let (r, s) = m t in after_result r f s (km.after t h) kf;
  }

pub ruleset keeps_rules =
    (Keeps-pure, Keeps-fail, Keeps-query, Keeps-or_fail, Keeps-if, Keeps-fail_if, Keeps-bind)
