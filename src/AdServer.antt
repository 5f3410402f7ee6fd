-- ===== src/AdServer.antt =====
-- src/AdServer.cpp: the address that an unknown one stands for, and the life of the three servers.
-- The servers themselves and what they are given are adbase's. A pointer is null, points to an object,
-- or to one that was deleted.
pub mod Stopped
pub mod Fallback
use aidt.Prelude.{
  Bool, true, false, ◌&&◌, not, List, [], ◌∷◌, ◌++◌, Option, none, some, ◌>>=◌, Bytes,
  if◌then◌else◌, bytes_eq,
}
use aidt.Prelude.Table.{find}
use aidt.Texts.{contains}
use aidt.Settings.{AdbaseConfig}
use aidt.Message.{is_empty}

-- `Http::rewrite`
pub rewrite : List (Bytes × Bytes)
rewrite = []

-- The address that an address stands for which is not rewritten; `trim_url` is without the slashes at
-- its ends.
fallback_of : AdbaseConfig → Bytes → Bytes → Bytes
unfolding contains
fallback_of conf trim_url url =
    if is_empty trim_url
    then b'/' ∷ (conf.http_default_controller ++ (b'/' ∷ conf.http_default_action))
    else if not (contains (b'/' ∷ []) trim_url)
    then b'/' ∷ (trim_url ++ (b'/' ∷ conf.http_default_action))
    else url

-- `AdServer::httpFallback`; `has_manager` is whether there is a `_httpManager`.
pub http_fallback : AdbaseConfig → (Bytes → Bytes → Bytes) → Bool → Bytes → Bytes
unfolding fallback_of rewrite
http_fallback conf trim has_manager url =
    let trim_url = trim url (b'/' ∷ []) in
    elim (if has_manager then find trim_url rewrite else none) [
      | some target ↦ target
      | none ↦ fallback_of conf trim_url url
    ]

pub data Pointer : Type 0 where
  null live deleted : Pointer

-- The pointers of the servers that `stop` tests and deletes; one pointer stands for those of a server
-- that are made and deleted together. The switches are those of the settings at each call.
pub record AdServer : Type 0 where
  pub http : Pointer
  pub http_manager : Pointer
  pub mc_server : Pointer
  pub mc_parts : Pointer
  pub head_server : Pointer
  pub head_parts : Pointer

-- `AdServer::AdServer`
abbrev pub new_server : AdServer
new_server = record {
  http = null;
  http_manager = null;
  mc_server = null;
  mc_parts = null;
  head_server = null;
  head_parts = null;
}

-- `AdServer::init`, which `AdServer::run` calls before it starts what there is.
pub init : AdbaseConfig → AdServer → AdServer
init conf s =
    let s1 = if conf.is_start_http then record s { http = live; http_manager = live } else s in
    let s2 = if conf.is_start_mc then record s1 { mc_server = live; mc_parts = live } else s1 in
    if conf.is_start_head then record s2 { head_server = live; head_parts = live } else s2

-- `p != nullptr`
abbrev pub is_set : Pointer → Bool
is_set null = false
is_set _ = true

-- A use of an object that was deleted is undefined behaviour, as is its deletion.
abbrev pub use_object : {A : Type 0} → Pointer → A → Option A
use_object deleted a = none
use_object _ a = some a

stop_http : AdbaseConfig → AdServer → Option AdServer
stop_http conf s =
    if conf.is_start_http && is_set s.http
    then (use_object s.http s >>= λ s1.
        use_object s1.http_manager (record s1 { http_manager = deleted }))
    else some s

stop_mc : AdbaseConfig → AdServer → Option AdServer
stop_mc conf s =
    if conf.is_start_mc && is_set s.mc_server
    then (use_object s.mc_server (record s { mc_server = null }) >>= λ s1.
        use_object s1.mc_parts (record s1 { mc_parts = deleted }))
    else some s

stop_head : AdbaseConfig → AdServer → Option AdServer
stop_head conf s =
    if conf.is_start_head && is_set s.head_server
    then (use_object s.head_server (record s { head_server = null }) >>= λ s1.
        use_object s1.head_parts (record s1 { head_parts = deleted }))
    else some s

-- `AdServer::stop`; `none` is undefined behaviour.
pub stop : AdbaseConfig → AdServer → Option AdServer
unfolding stop_http stop_mc stop_head
stop conf s = stop_http conf s >>= stop_mc conf >>= stop_head conf
