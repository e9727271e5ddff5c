-- ===== src/Admin.antt =====
-- apps/server/src/routes/admin.ts and services/audit.ts: what every handler of the panel's API
-- shares. A handler takes the payload that zod parsed (`none` where it did not) and the database,
-- and gives its answer, the database after it and the work that it defers until the response is
-- sent. A failure of the database is modelled only where a foreign key causes it.
pub mod Shape
pub mod Chains
pub mod Counts
pub mod Shaped
pub mod Moved
pub mod Tunnels
pub mod Retuned
pub mod Outcomes
pub mod Sound
pub mod Ownership
pub mod Endpoints
pub mod Rules
pub mod RuleOutcomes
pub mod Addressed
pub mod Readdressed
pub mod RuleWrites
pub mod Allowances
pub mod Limits
pub mod Users
pub mod Packages
pub mod Nodes
pub mod Shielded
pub mod Refusals
pub mod Deferred
pub mod Settings
pub mod Readings
pub mod Renewal
use tyz.Prelude.{Bool, true, false, ℕ, Option, none, some, List, [], ◌∷◌, ◌++◌, Text}
use tyz.Js.Text.{codes}
use tyz.Db.{Database, AuditRow}

-- `c.json({ error }, status)`, or the body of a success.
pub data Answer {ℓ} (A : Type ℓ) : Type ℓ where
  refused : ℕ → Text → Answer A
  answered : A → Answer A

pub data Work : Type 0 where
  recompute_node recompute_tunnel recompute_user : ℕ → Work
  restart_service : List ℕ → Text → Work
  recompute_tls_nodes : Work

pub record Response {ℓ} (A : Type ℓ) : Type ℓ where
  pub answer : Answer A
  pub db : Database
  pub work : List Work

-- An early return: nothing is written.
abbrev pub refuse {ℓ} : {A : Type ℓ} → ℕ → Text → Database → Response A
refuse status error db = record { answer = refused status error; db = db; work = [] }

-- What a failed constraint ends in: `app.onError`.
abbrev pub internal_error {ℓ} : {A : Type ℓ} → Database → Response A
internal_error db = refuse 500 (codes "internal error") db

abbrev pub respond {ℓ} : {A : Type ℓ} → A → Database → List Work → Response A
respond value db work = record { answer = answered value; db = db; work = work }

pub record AuditEntry : Type 0 where
  pub actor : Text
  pub action : Text
  pub target_type : Option Text
  pub target_id : Option Text
  pub detail : Option Text

abbrev blank : Option Text → Text
blank none = []
blank (some t) = t

-- An entry that names its target, as all entries of the panel do.
abbrev pub audit_of : Text → Text → Text → Text → Text → AuditEntry
audit_of actor action target_type target_id detail = record {
  actor = actor;
  action = action;
  target_type = some target_type;
  target_id = some target_id;
  detail = some detail;
}

unfoldable pub record_audit : Text → AuditEntry → Database → Database
record_audit now entry db = record db {
  audit_log =
      db.audit_log
      ++ record {
        ts = now;
        actor = entry.actor;
        action = entry.action;
        target_type = blank entry.target_type;
        target_id = blank entry.target_id;
        detail = blank entry.detail;
      }
        ∷ [];
}

-- `!== undefined`
abbrev pub is_given {ℓ} : {A : Type ℓ} → Option A → Bool
is_given none = false
is_given (some _) = true

-- A partial update: a field that the payload leaves out keeps its value.
abbrev pub patched {ℓ} : {A : Type ℓ} → Option A → A → A
patched none old = old
patched (some new) old = new

-- The same for a column that may be NULL, which the payload cannot set back to NULL.
abbrev pub patched_some {ℓ} : {A : Type ℓ} → Option A → Option A → Option A
patched_some none old = old
patched_some (some new) old = some new
