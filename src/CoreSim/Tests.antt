-- ===== src/CoreSim/Tests.antt =====
-- The surrounding systems at concrete inputs.
use claim_triage_agent.Common.{
  ◌≡◌, ◌≢◌, refl, true, false, String, none, some, List, [], ◌∷◌, eq_iff, arith,
}
use claim_triage_agent.Contract.{ClaimSubmission, Claim, received, triaged}
use claim_triage_agent.CoreSim.Store.{
  Request, answered_once, remember, create_row, create_claim, record_claim_status, Drawn,
  claim_not_found, idempotency_key_reuse, write, read_parties, ready, request_fingerprint,
}
use claim_triage_agent.CoreSim.Store.Integrity.{IsSound}
use claim_triage_agent.CoreSim.Store.Soundness.{after_all-IsSound}
use claim_triage_agent.Database.Keeping.{Held}
use claim_triage_agent.CoreSim.Store.History.{Call, writes, reads, checks, after_all, retry_answers}
use claim_triage_agent.CoreSim.Store.Retry.{IsCalm, rows, reuse_refused}
use claim_triage_agent.CoreSim.Store.Schema.{IsLost, schema_lost}
use claim_triage_agent.CoreSim.Tables.{Tables, claim, Remembered, find_key, schema}
use claim_triage_agent.Database.{Session, Store, committed, ok, err, own, db, undefined_table}

abbrev dumps : Request → String
dumps (create_claim s) = "create_claim"
dumps (record_claim_status id s) = "record_claim_status"
dumps _ = "other"

abbrev sha256 : String → String
sha256 text = text

abbrev calm : Session Tables
calm = record { connects = true; answers = λ _. true; meanwhile = λ t. t; commit = committed }

calm-IsCalm : IsCalm calm
calm-IsCalm = record { connects = refl; answers = λ n. refl; commits = refl }

abbrev fresh : Store Tables
fresh = record { tables = none; schema_applied = false }

abbrev submission : ClaimSubmission
submission = record {
  policy_number = "SIM-2026-0001";
  incident_date = 20500;
  claim_amount_eur = 184050;
}

abbrev taken_in : Claim
taken_in = record {
  claim_id = 5;
  policy_number = "SIM-2026-0001";
  incident_date = 20500;
  claim_amount_eur = 184050;
  status = received;
  status_history = record { status = received; recorded_at = 100 } ∷ [];
}

abbrev drawn : Drawn
drawn = record { id = 5; now = 100 }

abbrev later : Drawn
later = record { id = 6; now = 200 }

create_takes_in :
    (write dumps sha256 (create_claim submission) "run/claim" drawn calm fresh).0
    ≡ ok (claim taken_in)
unfolding write create_row schema answered_once remember
create_takes_in = refl

abbrev after_create : Store Tables
after_create = (write dumps sha256 (create_claim submission) "run/claim" drawn calm fresh).1

abbrev between : List (Call × Session Tables)
between = (checks, calm) ∷ []

retry_answers_example :
    ((write dumps sha256
        (create_claim submission)
        "run/claim"
        later
        calm
        (after_all dumps sha256 between after_create)).0
      ≡ ok (claim taken_in))
    × (rows
          (write dumps sha256
            (create_claim submission)
            "run/claim"
            later
            calm
            (after_all dumps sha256 between after_create)).1.tables
        ≡ rows (after_all dumps sha256 between after_create).tables)
retry_answers_example =
    retry_answers dumps sha256 (create_claim submission) "run/claim" drawn later calm calm fresh
      (claim taken_in) between create_takes_in ((λ key m t h. h), tt) calm-IsCalm

abbrev two_writes : List (Call × Session Tables)
two_writes =
    (writes (create_claim submission) "run/claim" drawn, calm)
    ∷ (writes (record_claim_status 5 triaged) "run/status" later, calm)
    ∷ []

after_all-IsSound_example : Held IsSound (after_all dumps sha256 two_writes fresh).tables
after_all-IsSound_example =
    after_all-IsSound dumps sha256 two_writes fresh ((λ t h. h), ((λ t h. h), tt)) tt

abbrev remembered : Remembered
remembered = record { key = "run/claim"; fingerprint = "create_claim"; response = claim taken_in }

abbrev holding : Store Tables
holding = record {
  tables = some (record {
    policies = [];
    claims = taken_in ∷ [];
    documents = [];
    parties = [];
    keys = remembered ∷ [];
  });
  schema_applied = true;
}

other_fingerprint :
    remembered.fingerprint ≢ request_fingerprint dumps sha256 (record_claim_status 5 triaged)
unfolding request_fingerprint
other_fingerprint e = ground (arith, eq_iff "create_claim" "record_claim_status")

reuse_refused_example :
    ((write dumps sha256 (record_claim_status 5 triaged) "run/claim" later calm holding).0
      ≡ err (own (idempotency_key_reuse "run/claim")))
    × (rows
          (write dumps sha256
            (record_claim_status 5 triaged)
            "run/claim"
            later
            calm
            holding).1.tables
        ≡ rows holding.tables)
reuse_refused_example =
    reuse_refused dumps sha256 (record_claim_status 5 triaged) "run/claim" remembered later calm
      holding calm-IsCalm (unfold find_key in refl) other_fingerprint

abbrev lost : Store Tables
lost = (read_parties 9 calm fresh).1

abbrev asked_again : List (Call × Session Tables)
asked_again = (reads 9, calm) ∷ (checks, calm) ∷ []

schema_lost_example :
    ((read_parties 9 calm fresh).0 ≡ err (own (claim_not_found 9)))
    × IsLost lost
    × ((write dumps sha256
          (create_claim submission)
          "run/claim"
          drawn
          calm
          (after_all dumps sha256 asked_again lost)).0
        ≡ err (db undefined_table))
    × ((ready calm (after_all dumps sha256 asked_again lost)).0 ≡ true)
schema_lost_example =
    schema_lost dumps sha256 9 calm fresh asked_again (create_claim submission) "run/claim" drawn
      calm calm-IsCalm (calm-IsCalm, (calm-IsCalm, tt)) calm-IsCalm refl refl
