-- ===== src/Server/Agents.antt =====
-- internal/server/agent/store.go and handler.go, and the hooks of internal/server/server.go. Times are
-- left out; random ids, tokens and serial numbers are arguments.
use database_flashback.Base.{
  Bool, true, false, Option, none, some, List, [], ◌∷◌, ◌++◌, Bytes, text, eq_bytes, if◌then◌else◌,
}
use database_flashback.Base.Names.{has}
use database_flashback.Server.Shared.{Http, refused, replied, with_key, and_then}
use database_flashback.Server.Orgs.{OrgStore, Organization}
use database_flashback.Server.Guard.{
  check_user, check_named, check_found, check_member, check_admin,
}

pub record AgentRecord : Type 0 where
  pub id : Bytes
  pub org_id : Bytes
  pub hostname : Bytes
  pub mysql_version : Bytes
  pub status : Bytes
  pub cert_serial : Bytes
  pub registration_token : Bytes
  pub approved : Bool

-- The store, and the keys of its map in the order in which it iterates over them.
pub record AgentStore : Type 0 where
  pub agents : Bytes → Option AgentRecord
  pub ids : List Bytes

-- `Create` of a record with an id, `Update` of a record that is there, and `Delete`.
unfoldable pub put_agent : AgentRecord → AgentStore → AgentStore
unfolding has
put_agent a s = record {
  agents = with_key a.id (some a) s.agents;
  ids = if has a.id s.ids then s.ids else s.ids ++ a.id ∷ [];
}

abbrev delete_agent : Bytes → AgentStore → AgentStore
delete_agent id s = record s { agents = with_key id none s.agents }

-- `ListByOrg`.
unfoldable agents_of : AgentStore → Bytes → List Bytes → List AgentRecord
agents_of s org [] = []
agents_of s org (id ∷ ids) =
    let rest = agents_of s org ids in
    elim (s.agents id) [ none ↦ rest | some a ↦ if eq_bytes a.org_id org then a ∷ rest else rest ]

pub record RegisterRequest : Type 0 where
  pub org_id : Bytes
  pub hostname : Bytes
  pub mysql_version : Bytes

-- `Register`: an agent that waits for its approval.
unfoldable pub register_agent :
    OrgStore
    → Bytes
    → Bytes
    → Bytes
    → Option RegisterRequest
    → AgentStore
    → Http (AgentStore × AgentRecord)
unfolding check_user check_named check_member
register_agent orgs id token user body s = and_then (check_user user) λ u. elim body [
  | none ↦ refused 400 (text "invalid request body")
  | some req ↦ and_then (check_named (text "hostname is required") req.hostname) λ hostname.
      and_then (check_named (text "orgId is required") req.org_id) λ org.
        and_then (check_member (text "not a member of this organisation") orgs org u org) λ owner.
          let a : AgentRecord = record {
            id = id;
            org_id = owner;
            hostname = hostname;
            mysql_version = req.mysql_version;
            status = text "offline";
            cert_serial = [];
            registration_token = token;
            approved = false;
          } in
          replied 201 (put_agent a s, a)
]

-- `List`.
unfoldable pub list_agents : OrgStore → Bytes → Bytes → AgentStore → Http (List AgentRecord)
unfolding check_user check_named check_member agents_of
list_agents orgs user org s = and_then (check_user user) λ u.
    and_then (check_named (text "orgId query parameter is required") org) λ o.
      and_then (check_member (text "not a member of this organisation") orgs o u o)
        λ owner. replied 200 (agents_of s owner s.ids)

-- The agent of a request, up to the check of who asks.
unfoldable pub find_agent : Bytes → Bytes → AgentStore → Http (Bytes × AgentRecord)
unfolding check_user check_named check_found
find_agent user id s = and_then (check_user user) λ u.
    and_then (check_named (text "missing agent id") id)
      λ i. and_then (check_found (text "agent not found") (s.agents i)) λ a. replied 200 (u, a)

-- `Approve`.
unfoldable pub approve :
    OrgStore → Bytes → Bytes → Bytes → AgentStore → Http (AgentStore × AgentRecord)
unfolding find_agent check_admin put_agent
approve orgs serial user id s = and_then (find_agent user id s) λ (u, a).
    and_then (check_admin (text "only organisation admins can approve agents") orgs a.org_id u a)
      λ mine.
        let approved_now : AgentRecord = record mine { approved = true; cert_serial = serial } in
        replied 200 (put_agent approved_now s, approved_now)

-- `Reject`.
unfoldable pub reject : OrgStore → Bytes → Bytes → AgentStore → Http AgentStore
unfolding find_agent check_admin
reject orgs user id s = and_then (find_agent user id s) λ (u, a).
    and_then (check_admin (text "only organisation admins can reject agents") orgs a.org_id u a)
      λ mine. replied 200 (delete_agent id s)

-- `Get` of the handler.
unfoldable pub get_agent : OrgStore → Bytes → Bytes → AgentStore → Http AgentRecord
unfolding find_agent check_member
get_agent orgs user id s =
    and_then (find_agent user id s)
      λ (u, a). check_member (text "not a member of the agent's organisation") orgs a.org_id u a

-- The hook `OnConnect`: an agent that the store does not know is approved for the first organisation
-- that the iteration over the map of organisations gives.
unfoldable on_connect : List Organization → Bytes → AgentStore → AgentStore
unfolding put_agent
on_connect orgs id s = elim (s.agents id) [
  | some a ↦ put_agent (record a { status = text "online" }) s
  | none ↦
      put_agent
        (record {
          id = id;
          org_id = elim orgs [ [] ↦ [] | o ∷ os ↦ o.id ];
          hostname = id;
          mysql_version = [];
          status = text "online";
          cert_serial = [];
          registration_token = [];
          approved = true;
        })
        s
]

-- The hook `OnDisconnect`.
unfoldable on_disconnect : Bytes → AgentStore → AgentStore
unfolding put_agent
on_disconnect id s = elim (s.agents id) [
  | some a ↦ put_agent (record a { status = text "offline" }) s
  | none ↦ s
]
