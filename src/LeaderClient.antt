-- ===== src/LeaderClient.antt =====
-- pkg/client/client.go: the client with which a pod asks whether it is the leader. An action takes
-- the state of the client, and the calls made so far in it, explicitly.
pub mod Answers
use zen_lead.Base.{
  ℕ, suc, ◌+◌, String, Bool, true, false, not, ◌&&◌, ◌||◌, Option, none, some, List, [], ◌∷◌,
  str_eq, ltb, leb, ◌==◌, if◌then◌else◌,
}
use Prim.Native.Char.{code}
use Prim.Native.String
use zen_lead.Base.Text.{append}
use zen_lead.Base.Dict.{Dict, lookup, insert}
use zen_lead.Kube.Objects.{Key}
use zen_lead.Kube.Errors.{Error, Result, ok, err, other, wrap}
use zen_lead.LeaderGroup.Objects.{Lease}
use zen_lead.LeaderGroup.Status.{holder_of}

pub data Lookup : Type 0 where
  read_time : Lookup
  get_lease : Key → Lookup

-- The pod's environment: os.Getenv("POD_NAMESPACE"), the service account's namespace file, the API
-- server, the clock, and the validators of apimachinery.
pub record Surroundings : Type 0 where
  pub pod_namespace : String
  pub namespace_file : Result String
  pub get_lease : List Lookup → Key → Result Lease
  pub now : List Lookup → ℕ
  pub is_dns1123_label : String → Bool
  pub is_dns1123_subdomain : String → Bool

pub record CacheEntry : Type 0 where
  pub is_leader : Bool
  pub expires : ℕ

-- Client
pub record Client : Type 0 where
  pub pod_name : String
  pub pod_uid : String
  pub cache : Dict CacheEntry
  pub lookups : List Lookup

-- DefaultCacheTTL
abbrev pub default_cache_ttl : ℕ
default_cache_ttl = 2000000000

-- NewClient, of the variables POD_NAME, HOSTNAME and POD_UID
unfoldable pub new_client : String → String → String → Client
new_client pod_name hostname pod_uid = record {
  pod_name = if str_eq pod_name "" then hostname else pod_name;
  pod_uid = pod_uid;
  cache = [];
  lookups = [];
}

-- unicode.IsSpace
unfoldable pub is_space : ℕ → Bool
is_space n =
    (leb 9 n && leb n 13)
    || n == 32
    || n == 133
    || n == 160
    || n == 5760
    || (leb 8192 n && leb n 8202)
    || n == 8232
    || n == 8233
    || n == 8239
    || n == 8287
    || n == 12288

trim_left : String → String
trim_left String.[] = ""
trim_left (String.◌∷◌ c s) =
    let rest = trim_left s in if is_space (code c) then rest else String.◌∷◌ c s

trim_right : String → String
trim_right String.[] = ""
trim_right (String.◌∷◌ c s) =
    let rest = trim_right s in if is_space (code c) && str_eq rest "" then "" else String.◌∷◌ c rest

-- strings.TrimSpace
unfoldable pub trim_space : String → String
unfolding is_space trim_left trim_right
trim_space s = trim_right (trim_left s)

-- the bytes of a code point in UTF-8
abbrev char_bytes : ℕ → ℕ
char_bytes n = if ltb n 128 then 1 else if ltb n 2048 then 2 else if ltb n 65536 then 3 else 4

-- `len(data)` of a text
unfoldable pub byte_length : String → ℕ
byte_length String.[] = 0
byte_length (String.◌∷◌ c s) = char_bytes (code c) + byte_length s

-- the lease is held, and the holder is the pod's name, or its name and its UID
unfoldable pub holds : Client → Lease → Bool
holds c x =
    not (str_eq (holder_of x) "")
    && (str_eq c.pod_name (holder_of x)
        || str_eq (append c.pod_name (append "-" c.pod_uid)) (holder_of x))

-- the key of an entry that has a namespace
abbrev pub namespace_key : String → String → String
namespace_key ns pool = append ns (append "/" pool)

module _ ⦃w : Surroundings⦄ where
  abbrev valid_namespace : String → String → Result String
  valid_namespace text ns = if w.is_dns1123_label ns then ok ns else err (other text)

  abbrev from_file : Result String → Result String
  from_file (ok text) =
      if ltb 256 (byte_length text)
      then err (other "namespace file too large")
      else valid_namespace "invalid namespace format" (trim_space text)
  from_file (err e) = err (wrap "cannot determine namespace" e)

  -- the namespace of the pod: from the environment, else from the file
  unfoldable pub own_namespace : Result String
  own_namespace =
      if str_eq w.pod_namespace ""
      then from_file w.namespace_file
      else valid_namespace "invalid namespace format from POD_NAMESPACE"
          (trim_space w.pod_namespace)

  abbrev live : ℕ → Option CacheEntry → Option Bool
  live time none = none
  live time (some e) = if ltb time e.expires then some e.is_leader else none

  abbrev look : Option CacheEntry → Client → Option Bool × Client
  look none c = (none, c)
  look (some e) c = (live (w.now c.lookups) (some e), record c { lookups = read_time ∷ c.lookups })

  -- the part that checks the cache; the clock is read if there is an entry
  unfoldable pub check_cache : String → Client → Option Bool × Client
  check_cache key c = look (lookup key c.cache) c

  -- the answer is cached for the TTL
  unfoldable pub store_answer : String → Bool → Client → Client
  store_answer key answer c = record c {
    cache =
        insert key (record { is_leader = answer; expires = w.now c.lookups + default_cache_ttl })
          c.cache;
    lookups = read_time ∷ c.lookups;
  }

  abbrev answer_with : String → Result Lease → Client → Result Bool × Client
  answer_with key (err e) c = (err (wrap "lease not found for pool" e), c)
  answer_with key (ok x) c = (ok (holds c x), store_answer key (holds c x) c)

  -- the part that reads the lease
  unfoldable pub ask_lease : String → Key → Client → Result Bool × Client
  ask_lease key lease c =
      answer_with key (w.get_lease c.lookups lease)
        (record c { lookups = get_lease lease ∷ c.lookups })

  abbrev ask_in : String → Result String → Client → Result Bool × Client
  ask_in pool (err e) c = (err e, c)
  ask_in pool (ok ns) c = ask_lease pool (record { namespace = ns; name = pool }) c

  unfoldable pub ask_own : String → Client → Result Bool × Client
  ask_own pool c =
      if str_eq c.pod_name ""
      then (err (other "pod name not set"), c)
      else ask_in pool own_namespace c

  abbrev or_ask : (Client → Result Bool × Client) → Option Bool × Client → Result Bool × Client
  or_ask ask (some answer, c) = (ok answer, c)
  or_ask ask (none, c) = ask c

  -- IsLeader
  unfoldable pub is_leader : String → Client → Result Bool × Client
  is_leader pool c = or_ask (ask_own pool) (check_cache pool c)

  unfoldable pub ask_valid : String → String → Client → Result Bool × Client
  ask_valid pool ns c =
      if not (w.is_dns1123_label ns)
      then (err (other "invalid namespace format"), c)
      else if not (w.is_dns1123_subdomain pool)
      then (err (other "invalid pool name format"), c)
      else if str_eq c.pod_name ""
      then (err (other "pod name not set"), c)
      else or_ask (ask_lease (namespace_key ns pool) (record { namespace = ns; name = pool }))
          (check_cache (namespace_key ns pool) c)

  -- IsLeaderWithNamespace
  unfoldable pub is_leader_with_namespace : String → String → Client → Result Bool × Client
  is_leader_with_namespace pool ns c = ask_valid pool (trim_space ns) c

-- ClearCache
unfoldable pub clear_cache : Client → Client
clear_cache c = record c { cache = [] }
