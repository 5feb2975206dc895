-- ===== src/Session/Samples.antt =====
-- Sessions, a service and a cipher to try the operations on.
use codeforge.Session.Operations.Creation.{IsInvertible}
use codeforge.Crypto.{Aead, IsAuthentic, service, service-IsInvertible}
use codeforge.Prelude.{
  refl, sym, ap, eq_iff, update, ◌*◌, ◌=s◌, String, Option, none, some, List, [],
}
use codeforge.Session.Status.{running, canceled, Status}
use codeforge.Session.World.{Hash, empty_hash, Entry, Row, World}
use codeforge.Session.Service.{CreateSessionRequest, Draws, Cipher, Settings}
use codeforge.Session.Operations.{hour}

-- A library that seals nothing, and the service over it.
abbrev unsealing : Aead
unsealing = record {
  is_nonce = λ n. n =s "n";
  seal = λ nonce s. s;
  unseal = λ nonce sealed. some sealed;
  encode = λ nonce sealed. sealed;
  decode = λ c. some ("n", c);
}

abbrev pub marking : Cipher
marking = service unsealing

unsealing-IsAuthentic : IsAuthentic unsealing
unsealing-IsAuthentic nonce s n filled =
    (filled, ap (λ x. some (x, s)) (sym ((eq_iff nonce "n").0 n)), refl)

pub marking-IsInvertible : IsInvertible marking
marking-IsInvertible = service-IsInvertible unsealing unsealing-IsAuthentic

abbrev pub day_settings : Settings
day_settings = record { state_ttl = 24 * hour }

abbrev pub hash_in : Status → Hash
hash_in s = record empty_hash { id = some "a"; status = some s; iteration = some 1 }

abbrev pub entry_in : Status → Entry
entry_in s = record { hash = hash_in s; ttl = none }

abbrev pub no_entries : String → Option Entry
no_entries _ = none

abbrev pub world_of : (String → Option Entry) → Option (List Row) → World
world_of state rows = record {
  state = state;
  result = λ _. none;
  iterations = λ _. [];
  queue = [];
  processing = [];
  index = [];
  sqlite = rows;
  now = 5;
  faults = [];
}

-- The session "a" runs, and "b" is canceled.
abbrev pub two_sessions : World
two_sessions =
    world_of
      (update (update no_entries "a" (some (entry_in running))) "b" (some (entry_in canceled))) none

abbrev pub request : CreateSessionRequest
request = record {
  repo_url = "https://github.com/o/r";
  provider_key = "";
  access_token = "secret";
  prompt = "fix the tests";
  session_type = "";
  callback_url = "";
  config = none;
  workflow_run_id = "";
  metadata = [];
  tenant_id = "t";
}

abbrev pub draws : Draws
draws = record { id = "c"; token_nonce = "n"; key_nonce = "n" }
