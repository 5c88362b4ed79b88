-- ===== src/Tests/Lifecycle.antt =====
-- An app of three providers, of which the last one fails to start.
use sdkit.Base.{◌≡◌, refl, ℕ, ◌+◌, String, Bool, true, false, List, [], ◌∷◌}
use sdkit.Runtime.Lifecycle.{
  Provider, Capability, App, start_from, stop_app, stop_providers, stop_one, roll_back,
}
use sdkit.Runtime.Lifecycle.Reverse.{IsUndone, stops, start_from-IsUndone}
use sdkit.Runtime.Lifecycle.Stop.{IsHalted, stop_app-IsHalted}

abbrev provider : String → Bool → List ℕ → Provider ℕ
provider name is_service result = record {
  name = name;
  is_service = is_service;
  start = λ w. (result, w + 1);
  stop = λ w. ([], w + 1);
}

abbrev database : Provider ℕ
database = provider "database" false []

abbrev server : Provider ℕ
server = provider "server" true []

abbrev worker : Provider ℕ
worker = provider "worker" false (7 ∷ [])

abbrev cache : Capability ℕ
cache = record { name = "cache"; shutdown = λ w. (8 ∷ [], w + 1) }

abbrev fresh : App ℕ
fresh = record {
  running_providers = [];
  registered_capabilities = cache ∷ [];
  is_stopping_itself = false;
  is_stopped = false;
  log = [];
  world = 0;
}

abbrev alone : ℕ → Bool
alone w = false

abbrev providers : List (Provider ℕ)
providers = database ∷ server ∷ worker ∷ []

start_from-IsUndone_example :
    IsUndone (start_from alone [] providers fresh).0 (start_from alone [] providers fresh).2
start_from-IsUndone_example = start_from-IsUndone alone providers fresh refl

rolled_back :
    stops (start_from alone [] providers fresh).2.log ≡ "database" ∷ "server" ∷ "worker" ∷ []
unfolding start_from stops roll_back stop_providers stop_one
rolled_back = refl

abbrev started : App ℕ
started = record fresh { running_providers = database ∷ server ∷ [] }

stop_app-IsHalted_example : IsHalted started (stop_app started)
stop_app-IsHalted_example = stop_app-IsHalted started refl refl
