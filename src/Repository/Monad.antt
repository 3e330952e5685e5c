-- ===== src/Repository/Monad.antt =====
-- Go's calls as actions: they read and change the world, and return a value or an error. What was
-- written before an error stays written, until a transaction rolls it back.
use walnut_billing.Prelude.{suc, String, Bool, Option, none, some, if◌then◌else◌}
use Prim.Native.String.{◌++◌}
use walnut_billing.Domain.{Time}
use walnut_billing.Repository.Error.{
  GormError, Error, database, entropy, is_not_found, map_gorm_not_found, Result, ok, err,
}
use walnut_billing.Repository.World.{Store, World, Env}

abbrev pub Action : Type 0 → Type 0
Action A = World → Result Error A × World

unfoldable pub pure : {A : Type 0} → A → Action A
pure a w = (ok a, w)

unfoldable pub raise : {A : Type 0} → Error → Action A
raise e w = (err e, w)

infixl 5 ◌>>=◌ ◌>>◌
-- Shut, so that rules on a `do` block see its steps.
unfoldable pub ◌>>=◌ : {A B : Type 0} → Action A → (A → Action B) → Action B
◌>>=◌ m f w = let (r, w') = m w in elim r [ ok a ↦ f a w' | err e ↦ (err e, w') ]

abbrev pub ◌>>◌ : {A B : Type 0} → Action A → Action B → Action B
m >> k = m >>= λ _. k

-- `if cond { return err }`
unfoldable pub raise_if : Bool → Error → Action (Unit {0})
raise_if c e w = (if c then err e else ok tt, w)

-- `x, err := get(); if err == nil { f }; if !errors.Is(err, ErrNotFound) { return err }; g`
unfoldable pub if_found : {A B : Type 0} → Action A → (A → Action B) → Action B → Action B
if_found m f g w =
    let (r, w') = m w in
    elim r [ ok a ↦ f a w' | err e ↦ if is_not_found e then g w' else (err e, w') ]

-- `if errors.Is(err, ErrNotFound) { return other }`
unfoldable pub not_found_as : {A : Type 0} → Error → Action A → Action A
not_found_as other m w =
    let (r, w') = m w in
    elim r [ ok a ↦ (ok a, w') | err e ↦ (err (if is_not_found e then other else e), w') ]

-- The error of a call of GORM, as it stands.
unfoldable pub from_gorm : {A : Type 0} → Result GormError A → Action A
from_gorm (ok a) w = (ok a, w)
from_gorm (err e) w = (err (database e), w)

-- The error of a read, through `mapGormNotFound`.
unfoldable pub from_gorm_read : {A : Type 0} → Result GormError A → Action A
from_gorm_read (ok a) w = (ok a, w)
from_gorm_read (err e) w = (err (map_gorm_not_found e), w)

-- A query of the tables.
unfoldable pub read : {A : Type 0} → (Store → Result GormError A) → Action A
unfolding from_gorm_read
read q w = from_gorm_read (q w.store) w

-- A query whose error is passed on as it stands.
unfoldable pub read_all : {A : Type 0} → (Store → Result GormError A) → Action A
unfolding from_gorm
read_all q w = from_gorm (q w.store) w

-- A change of the tables.
unfoldable pub write : (Store → Result GormError Store) → Action (Unit {0})
write q w = elim (q w.store) [
  | ok s ↦ (ok tt, record w { store = s })
  | err e ↦ (err (database e), w)
]

module _ (env : Env) where
  -- `time.Now().UTC()`
  unfoldable pub time_now : Action Time
  time_now w = (ok (env.clock w.ticks), record w { ticks = suc w.ticks })

  abbrev pub draw : String → Option String → Result Error String
  draw prefix none = err entropy
  draw prefix (some digits) = ok (prefix ++ digits)

  -- `generateEntityID`
  unfoldable pub generate_entity_id : String → Action String
  generate_entity_id prefix w = (draw prefix (env.random w.draws), record w { draws = suc w.draws })
