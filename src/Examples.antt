-- ===== src/Examples.antt =====
-- The data of the examples: two users, two agents, a grant and its delegation, a run and three memories.
pub mod Authorities
pub mod Grants
pub mod Memories
pub mod Requests
pub mod Terminations
pub mod Services
pub mod Stores
pub mod Proxies
use tik_tok_tech_jam.Base.{ℕ, String, true, false, Option, none, some, List, [], ◌∷◌, ◌++◌}
use tik_tok_tech_jam.Types.{
  Instant, stopped, ready, Agent, agent, Principal, network_egress, resource_read, Grant,
  web_content, operator, untrusted, trusted, MemoryEntry, MockResource, Database,
}
use tik_tok_tech_jam.Errors.{Failure}
use tik_tok_tech_jam.Store.{Persist, empty_database}

abbrev pub written : Persist
written db = none

abbrev pub agent_named : String → String → Agent
agent_named id principal_id = record {
  id = id;
  name = id;
  description = "";
  instructions = "";
  owner_id = "user-a";
  principal_id = principal_id;
  status = ready;
  workspace_path = "/work";
  codex_thread_id = none;
  active_session_id = none;
  last_error = none;
  authority_blocked = false;
  created_at = 10;
  updated_at = 10;
}

-- user A lets the first agent reach a host
abbrev pub given : Grant
given = record {
  id = "g1";
  principal_id = "agent-1";
  granted_by = "user-a";
  scope = network_egress;
  target = "api.test";
  expires_at = none;
  revoked_at = none;
  revoked_by = none;
  created_at = 20;
  parent_grant_id = none;
}

-- the first agent passes it on to the second, until an instant
abbrev pub passed_on : Grant
passed_on = record {
  id = "g2";
  principal_id = "agent-2";
  granted_by = "agent-1";
  scope = network_egress;
  target = "api.test";
  expires_at = some 500;
  revoked_at = none;
  revoked_by = none;
  created_at = 30;
  parent_grant_id = some "g1";
}

-- user A lets the first agent read user A's list
abbrev pub readable : Grant
readable = record {
  id = "g3";
  principal_id = "agent-1";
  granted_by = "user-a";
  scope = resource_read;
  target = "res-a";
  expires_at = none;
  revoked_at = none;
  revoked_by = none;
  created_at = 40;
  parent_grant_id = none;
}

abbrev pub all_grants : List Grant
all_grants = given ∷ passed_on ∷ readable ∷ []

abbrev pub list_a : MockResource
list_a = record {
  id = "res-a";
  owner_id = "user-a";
  name = "User A customer list";
  content = "alpha,beta,gamma";
}

abbrev principal_named : String → Principal
principal_named id = record { id = id; kind = agent; name = id; created_at = 10 }

abbrev pub memory_of : String → String → Instant → MemoryEntry
memory_of id agent_id created_at = record {
  id = id;
  agent_id = agent_id;
  content = "a note";
  provenance = record { run_id = some "r1"; source_type = web_content; source_detail = "page" };
  trust = untrusted;
  created_at = created_at;
  expires_at = none;
  quarantined_at = none;
  quarantined_by = none;
}

abbrev pub mine : MemoryEntry
mine = memory_of "m1" "a1" 50

abbrev pub theirs : MemoryEntry
theirs = memory_of "m2" "a2" 60

abbrev pub sample : Database
sample = record empty_database {
  agents = agent_named "a1" "agent-1" ∷ agent_named "a2" "agent-2" ∷ [];
  principals =
      empty_database.principals ++ principal_named "agent-1" ∷ principal_named "agent-2" ∷ [];
  grants = all_grants;
  memories = mine ∷ theirs ∷ [];
}
