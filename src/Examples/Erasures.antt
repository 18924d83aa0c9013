-- ===== src/Examples/Erasures.antt =====
-- Two learners share a file, and the object store refuses one key.
use guru_alt.Common.{
  ◌+◌, ◌*◌, ◌==◌, ◌≡◌, not, arith, refl, true, false, none, some, List, [], ◌∷◌, elem,
}
use guru_alt.Erasure.{SourceBlob, Stores, blob, is_blob_referenced}
use guru_alt.Erasure.Account.{Keys, Outside, erase_learner}
use guru_alt.Erasure.Settled.{IsErased, erase_learner-IsErased, erase_learner_spares}
use guru_alt.Erasure.Retry.{Recorded}

abbrev keys : Keys
keys = record {
  artifact_key = λ id. id + 1000;
  conversation_key = λ id. id + 2000;
  thread_key = λ session learner_id. session + learner_id * 3000;
}

abbrev out : Outside
out = record {
  refuses_object = λ key. key == 41;
  refuses_thread = λ thread. false;
  provider = none;
}

abbrev stores : Stores
stores = record {
  learners =
      record { id = 7; auth_subject = some 70 } ∷ record { id = 8; auth_subject = none } ∷ [];
  conversations = record { id = 5; learner_id = 7 } ∷ record { id = 6; learner_id = 8 } ∷ [];
  onboarding_sessions = record { id = 90; learner_id = 7 } ∷ [];
  sources =
      record { id = 1; learner_id = 7; blob_key = some 40 }
      ∷ record { id = 2; learner_id = 7; blob_key = some 41 }
      ∷ record { id = 3; learner_id = 8; blob_key = some 40 }
      ∷ [];
  objects = 40 ∷ 41 ∷ 1001 ∷ [];
  identities = 70 ∷ [];
  threads = 2005 ∷ 2006 ∷ 21090 ∷ [];
  pending = [];
}

erase_learner-IsErased_example : IsErased keys out 500 7 stores
erase_learner-IsErased_example = erase_learner-IsErased keys out 500 7 stores (omega arith)

abbrev others : List SourceBlob
others = record { id = 3; learner_id = 8; blob_key = some 40 } ∷ []

still_named : is_blob_referenced 40 none others ≡ true
unfolding is_blob_referenced
still_named = refl

erase_learner_spares_example :
    elem 40 (erase_learner keys out 500 7 stores).objects ≡ elem 40 stores.objects
erase_learner_spares_example = erase_learner_spares keys out 500 7 stores 40 refl still_named

abbrev waiting : Stores
waiting = record stores {
  pending =
      record { kind = blob; target = 41; attempts = 2; next_attempt_at = 600 }
      ∷ record { kind = blob; target = 40; attempts = 0; next_attempt_at = 500 }
      ∷ [];
}

-- The database does not take what becomes of the file 41.
abbrev recorded : Recorded
recorded kind target = not (target == 41)
