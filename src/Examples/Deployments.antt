-- ===== src/Examples/Deployments.antt =====
-- A deployment to two servers, what is read from its texts, and an identity in the grace period.
use devops_cd.Prelude.{
  ℕ, String, true, false, none, some, [], ◌∷◌, ◌≡◌, refl, arith, if◌then◌else◌, str_eq,
}
use mathlib.Core.Path.{subst}
use mathlib.Core.Option.{some-injective}
use devops_cd.Result.{ok, err, OnOk}
use devops_cd.State.{State, Server}
use devops_cd.Text.Order.{le_text}
use devops_cd.Text.{lower, strip}
use devops_cd.Auth.Glue.{
  Glue, Caches, Response, get_identity, fetch_identity, glue_get, role_permissions,
  soft_fail_or_raise,
}
use devops_cd.Auth.Freshness.{IsSound, identity_keeps_IsSound}
use devops_cd.Auth.Confirmed.{Call, Event, after}
use devops_cd.Deploy.Options.{no_options, parse_command_options}
use devops_cd.Deploy.Marker.{print_options, or_empty, MarkedFirst, command_options_roundtrip}
use devops_cd.Deploy.Targets.{Target, get_targets, by_name}
use devops_cd.Deploy.Plan.{Outcome, Deployer, Site}
use devops_cd.Deploy.Service.{execute}
use devops_cd.Deploy.Closing.{IsClosed, execute_closes}
use devops_cd.Deploy.Coverage.{Covers, execute-Covers}
use devops_cd.System.{Reach}
use devops_cd.System.Traces.{IsQuiet, IsQuietSite}
use devops_cd.Examples.{env, initial, alice, params}

abbrev server : ℕ → String → Server
server id name = record {
  id = id;
  name = name;
  kind = "ssh";
  host = name;
  port = 22;
  user = "root";
  password = "";
  ssh_key = "";
  tags = "";
}

abbrev pub with_servers : State
with_servers = record initial { servers = server 1 "b" ∷ server 2 "a" ∷ [] }

-- It fails on the server "b".
abbrev deployer : Deployer
deployer = record {
  validate = λ t o. ok "";
  deploy = λ t o image key tag s.
      (if str_eq t.host "b" then Outcome.raised "no route" else Outcome.finished "ok" "done", s);
  took = λ t. 5;
}

abbrev pub site : Site
site = record {
  env = env;
  project_key = λ p. none;
  decrypt = λ s. some s;
  deployers = λ name. some deployer;
  elapsed = λ stages. 12;
}

abbrev target : ℕ → String → Target
target id name = record {
  id = id;
  host = name;
  port = 22;
  user = "root";
  password = "";
  ssh_key = "";
}

targets_found :
    get_targets site.decrypt params.server_ids with_servers ≡ ok (target 2 "a" ∷ target 1 "b" ∷ [])
unfolding get_targets by_name le_text
targets_found = refl

execute_closes_example :
    OnOk
      (λ x. IsClosed x.deploy_id (execute site params (some alice) 0 with_servers).1)
      (execute site params (some alice) 0 with_servers).0
execute_closes_example = execute_closes site params (some alice) 0 with_servers (omega arith)

execute-Covers_example :
    OnOk
      (Covers (target 2 "a" ∷ target 1 "b" ∷ []))
      (execute site params (some alice) 0 with_servers).0
execute-Covers_example =
    execute-Covers site params (some alice) 0 with_servers (target 2 "a" ∷ target 1 "b" ∷ [])
      targets_found

parse_test :
    parse_command_options "site.yml|INV|a|INV|b"
    ≡ record no_options { commands = some "site.yml"; inventory = some "a|INV|b" }
unfolding parse_command_options
parse_test = refl

command_options_roundtrip_example :
    (print_options (parse_command_options "site.yml|INV|web") ≡ "site.yml|INV|web")
    × MarkedFirst "site.yml|INV|web"
        (parse_command_options "site.yml|INV|web").inventory
        (or_empty (parse_command_options "site.yml|INV|web").commands)
command_options_roundtrip_example = command_options_roundtrip "site.yml|INV|web"

pub site-IsQuiet : IsQuietSite site
site-IsQuiet name d e =
    subst IsQuiet (some-injective deployer d e) (λ t o image key tag s. Reach.here)

-- Glue does not answer; alice was confirmed 100 seconds ago.
abbrev glue : Glue
glue = record {
  ci_api_url = "http://glue";
  ci_api_token = "dg_1";
  revalidate_seconds = 60;
  stale_grace_seconds = 300;
  users = λ name. Response.unreachable;
  roles = λ role. Response.unreachable;
}

abbrev caches : Caches
caches = record {
  identities =
      (
        "alice",
        record {
          username = "alice";
          role = "dev";
          systems = some "cd";
          status = some 1;
          permissions = some ("cd.deploy.single" ∷ []);
          usable = true;
          checked_at = 900;
          last_ok_at = 900;
        },
      )
      ∷ [];
  perms = [];
  negative = [];
  last_warn = [];
  warnings = [];
}

caches-IsSound : IsSound caches
caches-IsSound = ((λ _. (refl, ("cd.deploy.single" ∷ [], refl))), tt)

-- 100 seconds ago Glue answered for alice.
abbrev earlier : Call
earlier = record {
  glue = record glue {
    users = λ name.
        Response.body
          (record { username = "Alice"; role = "dev"; systems = some "cd"; status = some 1 });
    roles = λ role. Response.body ("cd.deploy.single" ∷ []);
  };
  now = 900;
  username = "alice";
  force = false;
}

abbrev now : Call
now = record { glue = glue; now = 1000; username = " Alice"; force = false }

identity_keeps_IsSound_example : IsSound (get_identity glue 1000 " Alice" false caches).1
identity_keeps_IsSound_example =
    identity_keeps_IsSound glue 1000 " Alice" false caches caches-IsSound

in_grace_test :
    elim (get_identity glue 1000 " Alice" false (after (Event.asked earlier ∷ []))).0 [
      | ok e ↦ e.last_ok_at
      | err e ↦ 0
    ]
    ≡ 900
unfolding get_identity lower strip fetch_identity glue_get role_permissions soft_fail_or_raise
in_grace_test = refl
