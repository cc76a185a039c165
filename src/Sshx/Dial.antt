-- ===== src/Sshx/Dial.antt =====
-- internal/sshx/dial.go: opening the connection. What is outside (the agent, key and known_hosts
-- files, the network, and the handshake of the SSH library) is a parameter; the host's key and the
-- signers' keys are bytes.
pub mod Verified
use shevet.Prelude.{
  Bool, true, false, not, ◌&&◌, ◌||◌, Option, none, some, List, [], ◌∷◌, ◌++◌, if◌then◌else◌, Bytes,
  bytes_eq,
}
use shevet.Sshx.Config.{Config, strict, Unreachable, check_directly_reachable, addr}

-- What the known_hosts database says of a key: `matches` is its nil error.
pub data KeyCheck : Type 0 where
  matches : KeyCheck
  changed : KeyCheck
  unknown : KeyCheck
  check_fails : Bytes → KeyCheck

-- The errors that wrap `ErrHostKey`.
pub data HostKeyError : Type 0 where
  no_known_hosts : (host_name : Bytes) → HostKeyError
  key_changed : (host_name : Bytes) → HostKeyError
  not_in_known_hosts : (host_name : Bytes) → HostKeyError
  other_key_error : Bytes → HostKeyError

-- How a handshake ends: over a connection with a host of some key, or by what made it fail.
pub data Handshake : Type 0 where
  agreed : (key : Bytes) → Handshake
  key_refused : HostKeyError → Handshake
  unable_to_authenticate : Bytes → Handshake
  handshake_error : Bytes → Handshake

pub data DialError : Type 0 where
  unsupported_proxy : Unreachable → DialError
  known_hosts_unreadable : List Bytes → DialError
  connect_failed : (address : Bytes) → (err : Bytes) → DialError
  host_key : HostKeyError → DialError
  auth_failed : (user host_name err : Bytes) → DialError
  handshake_failed : (address : Bytes) → (err : Bytes) → DialError

pub data Dialed : Type 0 where
  failed : DialError → Dialed
  connected : (key : Bytes) → Dialed

-- A key callback: its error for a key, or none.
abbrev pub Callback : Type 0
Callback = Bytes → Option HostKeyError

pub record Outside : Type 0 where
  pub agent_signers : List Bytes
  pub load_identity : Bytes → Option Bytes
  pub file_exists : Bytes → Bool
  pub known_hosts : List Bytes → Option (Bytes → Bytes → KeyCheck)
  pub connect : Bytes → Option Bytes
  pub handshake : (user : Bytes) → (signers : List Bytes) → Callback → Handshake

-- `loadIdentityFiles`: a file that cannot be read or used is passed over.
unfoldable pub load_identity_files : (Bytes → Option Bytes) → List Bytes → List Bytes
load_identity_files load [] = []
load_identity_files load (p ∷ ps) =
    let rest = load_identity_files load ps in elim (load p) [ none ↦ rest | some s ↦ s ∷ rest ]

abbrev is_seen : Bytes → List Bytes → Bool
is_seen k [] = false
is_seen k (j ∷ js) = bytes_eq j k || is_seen k js

-- `dedupeSigners`, with the keys that it has seen.
unfoldable pub dedupe : List Bytes → List Bytes → List Bytes
unfolding bytes_eq
dedupe seen [] = []
dedupe seen (s ∷ ss) =
    let again = dedupe seen ss in
    let rest = dedupe (s ∷ seen) ss in if is_seen s seen then again else s ∷ rest

abbrev is_empty : List Bytes → Bool
is_empty [] = true
is_empty (x ∷ xs) = false

-- `authMethods`: the signers that are offered.
unfoldable pub auth_signers : Outside → Config → List Bytes
unfolding dedupe load_identity_files
auth_signers o c =
    let files = load_identity_files o.load_identity c.identity_files in
    let from_agent = if c.identities_only && not (is_empty files) then [] else o.agent_signers in
    dedupe [] (files ++ from_agent)

-- `existingFiles`
unfoldable pub existing_files : (Bytes → Bool) → List Bytes → List Bytes
existing_files exists [] = []
existing_files exists (p ∷ ps) =
    let rest = existing_files exists ps in if exists p then p ∷ rest else rest

-- `classifyHostKey`, and the nil error.
unfoldable pub classify_host_key : Bytes → KeyCheck → Option HostKeyError
classify_host_key host matches = none
classify_host_key host changed = some (key_changed host)
classify_host_key host unknown = some (not_in_known_hosts host)
classify_host_key host (check_fails e) = some (other_key_error e)

-- `hostKeyCallback`, or none where the known_hosts files cannot be loaded.
pub database_callback : Config → Option (Bytes → Bytes → KeyCheck) → Option Callback
unfolding classify_host_key addr
database_callback c none = none
database_callback c (some db) = some (λ key. classify_host_key c.host_name (db (addr c) key))

pub files_callback : Outside → Config → List Bytes → Option Callback
unfolding database_callback
files_callback o c [] = some (λ key. some (no_known_hosts c.host_name))
files_callback o c (f ∷ fs) = database_callback c (o.known_hosts (f ∷ fs))

pub host_key_callback : Outside → Config → Option Callback
unfolding files_callback existing_files strict
host_key_callback o c =
    if not (strict c)
    then some (λ key. none)
    else files_callback o c (existing_files o.file_exists c.known_hosts_files)

-- `classifyHandshake`
pub classify_handshake : Config → Handshake → Dialed
unfolding addr
classify_handshake c (agreed key) = connected key
classify_handshake c (key_refused e) = failed (host_key e)
classify_handshake c (unable_to_authenticate e) = failed (auth_failed c.user c.host_name e)
classify_handshake c (handshake_error e) = failed (handshake_failed (addr c) e)

-- `Dial`, in the order of its steps.
pub over_network : Outside → Config → Callback → Option Bytes → Dialed
unfolding classify_handshake auth_signers addr
over_network o c check (some e) = failed (connect_failed (addr c) e)
over_network o c check none = classify_handshake c (o.handshake c.user (auth_signers o c) check)

pub with_callback : Outside → Config → Option Callback → Dialed
unfolding over_network existing_files addr
with_callback o c none =
    failed (known_hosts_unreadable (existing_files o.file_exists c.known_hosts_files))
with_callback o c (some check) = over_network o c check (o.connect (addr c))

pub if_reachable : Outside → Config → Option Unreachable → Dialed
unfolding with_callback host_key_callback
if_reachable o c (some e) = failed (unsupported_proxy e)
if_reachable o c none = with_callback o c (host_key_callback o c)

unfoldable pub dial : Outside → Config → Dialed
unfolding if_reachable check_directly_reachable
dial o c = if_reachable o c (check_directly_reachable c)
