-- ===== src/Sshx/Config/Dials.antt =====
-- internal/sshx/config.go: whatever ssh prints, what is resolved can be dialed.
use mathlib.Core.Path.{subst}
use shevet.Prelude.{
  ◌≡◌, refl, ◌∙◌, ◌≢◌, inl, inr, false, Option, none, some, List, [], ◌∷◌, arith, Bool-cases,
  Option-cases, if_cases, Bytes, codes, bytes_eq, bytes_eq_refl, cut_at, trim_space,
}
use shevet.Sshx.Config.{
  Config, set_option, parse_line, bad, good, with_defaults, parse_lines, empty_config, default_name,
  default_port, empty_host, parse_config, Ran, printed, exited, ssh_args, after_run, resolve_config,
}
use shevet.Prelude.Scan.{scan_lines}

-- A host name and a port to dial, and the host that was asked for.
pub record CanDial (host : Bytes) (c : Config) : Type 0 where
  pub some_name : c.host_name ≢ []
  pub some_port : c.port ≢ []
  pub same_host : c.host ≡ host

set_option-host :
    (home : Option Bytes) (key val : Bytes) (c : Config) → (set_option home key val c).host ≡ c.host
unfolding set_option
set_option-host home key val c = ground arith

parse_line-host :
    (home : Option Bytes) (l : Bytes) (c : Config) → (parse_line home l c).host ≡ c.host
unfolding parse_line
parse_line-host home l c = elim (Option-cases (cut_at (b' ' ∷ []) l)) [
  | inl e ↦ rw (e, parse_line) refl
  | inr ((key, val), e) ↦ rw (e, parse_line) (set_option-host home key (trim_space val) c)
]

filled : (s : Bytes) → bytes_eq s [] ≡ false → s ≢ []
filled s h e = differ (subst (λ x. bytes_eq x [] ≡ false) e h)
  where
    differ : bytes_eq [] [] ≡ false → ⊥
    differ p = absurd (ground (arith, bytes_eq_refl []))

with_defaults-CanDial :
    (host : Bytes) (c : Config) → host ≢ [] → c.host ≡ host → CanDial host (with_defaults host c)
unfolding with_defaults default_name default_port
with_defaults-CanDial host c n e =
    if_cases Named (bytes_eq d.port []) (record d { port = codes "22" }) d
      (λ _. record {
        some_name = named.0;
        some_port = λ p. absurd (ground arith);
        same_host = named.1;
      })
      (λ given. record {
        some_name = named.0;
        some_port = filled d.port given;
        same_host = named.1;
      })
  where
    Named : Config → Type 0
    Named = CanDial host

    d : Config
    d = default_name host c

    named : (d.host_name ≢ []) × (d.host ≡ host)
    named =
        if_cases (λ (x : Config). (x.host_name ≢ []) × (x.host ≡ host)) (bytes_eq c.host_name [])
          (record c { host_name = host }) c (λ _. (n, e)) (λ given. (filled c.host_name given, e))

good-injective : (c d : Config) → good c ≡ good d → c ≡ d
good-injective c d h = cc

parse_lines-CanDial :
    (home : Option Bytes) (host : Bytes) (ls : List (Option Bytes)) (c d : Config)
    → host ≢ []
    → c.host ≡ host
    → parse_lines home host ls c ≡ good d
    → CanDial host d
unfolding parse_lines
parse_lines-CanDial home host [] c d n e h =
    subst (CanDial host) (good-injective (with_defaults host c) d h)
      (with_defaults-CanDial host c n e)
parse_lines-CanDial home host (none ∷ ls) c d n e h = absurd (ground arith)
parse_lines-CanDial home host (some l ∷ ls) c d n e h =
    parse_lines-CanDial home host ls (parse_line home l c) d n (parse_line-host home l c ∙ e) h

after_run-CanDial :
    (home : Option Bytes) (host : Bytes) (r : Ran) (c : Config)
    → host ≢ []
    → after_run home host r ≡ good c
    → CanDial host c
unfolding after_run parse_config
after_run-CanDial home host (printed out) c n h =
    parse_lines-CanDial home host (scan_lines out) (empty_config host) c n refl h
after_run-CanDial home host (exited err stderr) c n h = absurd (ground arith)

-- What is resolved, whatever ssh prints, has a host name and a port to dial, and is for the host
-- that was asked for.
pub resolve_config-CanDial :
    (home : Option Bytes) (ssh : List Bytes → Ran) (host config_file : Bytes) (c : Config)
    → resolve_config home ssh host config_file ≡ good c
    → CanDial host c
unfolding resolve_config
resolve_config-CanDial home ssh host config_file c h = elim (Bool-cases (bytes_eq host [])) [
  | inl empty ↦ absurd (refuses (rw (empty, resolve_config) at h))
  | inr given ↦
      after_run-CanDial home host (ssh (ssh_args config_file host)) c (filled host given)
        (rw (given, resolve_config) at h)
]
  where
    refuses : bad empty_host ≡ good c → ⊥
    refuses p = absurd (ground arith)
