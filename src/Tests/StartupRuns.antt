-- ===== src/Tests/StartupRuns.antt =====
-- The theorem on a relay that starts again at concrete inputs.
use laye.Base.{
  ◌≡◌, refl, ◌∷◌, [], Bytes, Option, none, some, codes, arith, is_some, Result, ok, err,
}
use laye.Me.Keys.{MeError, to_bytes}
use laye.Relaye.Startup.{Environment, Files, load_identity}
use laye.Relaye.Startup.Persists.{Keeps, load_identity_again}
use laye.Tests.Doubles.{toy, toy-IsLawful}

-- One file.
abbrev disk : Files (Option Bytes)
disk = record {
  exists_at = λ path f. is_some f;
  read = λ path f. elim f [ none ↦ err (codes "missing") | some b ↦ ok b ];
  create_parent = λ path f. (ok tt, f);
  write = λ path bytes f. (ok tt, some bytes);
}

disk-Keeps : Keeps disk
disk-Keeps = record {
  exists-write = λ path bytes f f' h. ground (arith, h);
  read-write = λ path bytes f f' h. ground (arith, h);
}

abbrev env : Environment
env = record {
  identity_file = some (codes "/data/id");
  identity_bytes = none;
  client_id = none;
  redirect_uri = none;
  client_kid = none;
  client_key_file = none;
  client_key_bytes = none;
}

abbrev print_me : MeError toy → Bytes
print_me x = codes "me"

abbrev decode64 : Bytes → Result Bytes Bytes
decode64 b = ok b

first_run : load_identity toy print_me decode64 disk env tt none ≡ (ok tt, some (9 ∷ []))
unfolding load_identity to_bytes
first_run = refl

load_identity_again_example :
    (◌≡◌ {A = Unit {0}} tt tt)
    × (load_identity toy print_me decode64 disk env tt (some (9 ∷ [])) ≡ (ok tt, some (9 ∷ [])))
load_identity_again_example =
    load_identity_again toy print_me decode64 disk env env (codes "/data/id") tt tt tt none
      (some (9 ∷ [])) toy-IsLawful disk-Keeps refl refl refl first_run
