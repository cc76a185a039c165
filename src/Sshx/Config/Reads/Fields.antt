-- ===== src/Sshx/Config/Reads/Fields.antt =====
-- internal/sshx/config.go: the loop over options, field by field.
use mathlib.Core.Path.{subst}
use shevet.Prelude.{
  ◌≡◌, refl, sym, ap, ◌∙◌, inl, inr, Bool, true, false, Option, none, some, List, [], ◌∷◌, ◌++◌,
  map, if◌then◌else◌, Bool-cases, if_true, if_false, if_cases, All, Bytes, codes, bytes_eq,
  bytes_eq→≡, trim_space, fields, Lacks, cut_at-join,
}
use mathlib.Core.Bool.{false≢true}
use shevet.Sshx.Config.{
  Config, expand_tilde, none_to_empty, set_option, parse_line, good, with_defaults, parse_lines,
}
use shevet.Sshx.Config.Reads.{Setting, show_setting, last_from, is_hosts_key}

-- The loop of `parseConfig` without its errors.
unfoldable pub read_lines : Option Bytes → List Bytes → Config → Config
unfolding parse_line
read_lines home [] c = c
read_lines home (l ∷ ls) c = read_lines home ls (parse_line home l c)

pub parse_lines-read_lines :
    (home : Option Bytes) (host : Bytes) (ls : List Bytes) (c : Config)
    → parse_lines home host (map some ls) c ≡ good (with_defaults host (read_lines home ls c))
unfolding parse_lines read_lines
parse_lines-read_lines home host [] c = refl
parse_lines-read_lines home host (l ∷ ls) c =
    parse_lines-read_lines home host ls (parse_line home l c)

module _ (home : Option Bytes) where
  unfoldable pub read_settings : List Setting → Config → Config
  unfolding set_option
  read_settings [] c = c
  read_settings ((k, v) ∷ ss) c = read_settings ss (set_option home k (trim_space v) c)

  parse_line-setting :
      (k v : Bytes) (c : Config)
      → Lacks 32 k
      → parse_line home (show_setting (k, v)) c ≡ set_option home k (trim_space v) c
  unfolding parse_line
  parse_line-setting k v c h =
      ap (λ o. elim o [ none ↦ c | some (key, val) ↦ set_option home key (trim_space val) c ])
        (cut_at-join 32 [] k v h)

  pub read_lines-settings :
      (ss : List Setting) (c : Config)
      → All (λ s. Lacks 32 s.0) ss
      → read_lines home (map show_setting ss) c ≡ read_settings ss c
  unfolding read_lines read_settings
  read_lines-settings [] c h = refl
  read_lines-settings ((k, v) ∷ ss) c h =
      ap (read_lines home (map show_setting ss)) (parse_line-setting k v c h.0)
      ∙ read_lines-settings ss (set_option home k (trim_space v) c) h.1

  -- A field that no branch changes that is taken.
  module _ {X : Type 0} (field : Config → X) (k v : Bytes) (c : Config) where
    pub unchanged :
        (bytes_eq k (codes "hostname") ≡ true → field (record c { host_name = v }) ≡ field c)
        → (bytes_eq k (codes "port") ≡ true → field (record c { port = v }) ≡ field c)
        → (bytes_eq k (codes "user") ≡ true → field (record c { user = v }) ≡ field c)
        → (bytes_eq k (codes "identityfile") ≡ true
            → field (record c { identity_files = c.identity_files ++ expand_tilde home v ∷ [] })
              ≡ field c)
        → (bytes_eq k (codes "identitiesonly") ≡ true
            → field (record c { identities_only = bytes_eq v (codes "yes") }) ≡ field c)
        → (is_hosts_key k ≡ true
            → field (record c {
              known_hosts_files = c.known_hosts_files ++ map (expand_tilde home) (fields v);
            })
              ≡ field c)
        → (bytes_eq k (codes "stricthostkeychecking") ≡ true
            → field (record c { strict_host_key_checking = v }) ≡ field c)
        → (bytes_eq k (codes "proxyjump") ≡ true
            → field (record c { proxy_jump = none_to_empty v }) ≡ field c)
        → (bytes_eq k (codes "proxycommand") ≡ true
            → field (record c { proxy_command = none_to_empty v }) ≡ field c)
        → field (set_option home k v c) ≡ field c
    unfolding set_option
    unchanged h0 h1 h2 h3 h4 h5 h6 h7 h8 =
        let P : Config → Type 0 = λ d. field d ≡ field c in
        let r9 : Config = c in
        let r8 : Config =
          if bytes_eq k (codes "proxycommand")
          then record c { proxy_command = none_to_empty v }
          else r9 in
        let r7 : Config =
          if bytes_eq k (codes "proxyjump")
          then record c { proxy_jump = none_to_empty v }
          else r8 in
        let r6 : Config =
          if bytes_eq k (codes "stricthostkeychecking")
          then record c { strict_host_key_checking = v }
          else r7 in
        let r5 : Config =
          if is_hosts_key k
          then record c {
            known_hosts_files = c.known_hosts_files ++ map (expand_tilde home) (fields v);
          }
          else r6 in
        let r4 : Config =
          if bytes_eq k (codes "identitiesonly")
          then record c { identities_only = bytes_eq v (codes "yes") }
          else r5 in
        let r3 : Config =
          if bytes_eq k (codes "identityfile")
          then record c { identity_files = c.identity_files ++ expand_tilde home v ∷ [] }
          else r4 in
        let r2 : Config = if bytes_eq k (codes "user") then record c { user = v } else r3 in
        let r1 : Config = if bytes_eq k (codes "port") then record c { port = v } else r2 in
        let r0 : Config =
          if bytes_eq k (codes "hostname") then record c { host_name = v } else r1 in
        if_cases P (bytes_eq k (codes "hostname")) (record c { host_name = v }) r1 h0
          (λ _.
            if_cases P (bytes_eq k (codes "port")) (record c { port = v }) r2 h1
              (λ _.
                if_cases P (bytes_eq k (codes "user")) (record c { user = v }) r3 h2
                  (λ _.
                    if_cases P (bytes_eq k (codes "identityfile"))
                      (record c { identity_files = c.identity_files ++ expand_tilde home v ∷ [] })
                      r4 h3
                      (λ _.
                        if_cases P (bytes_eq k (codes "identitiesonly"))
                          (record c { identities_only = bytes_eq v (codes "yes") }) r5 h4
                          (λ _.
                            if_cases P (is_hosts_key k)
                              (record c {
                                known_hosts_files =
                                    c.known_hosts_files ++ map (expand_tilde home) (fields v);
                              })
                              r6 h5
                              (λ _.
                                if_cases P (bytes_eq k (codes "stricthostkeychecking"))
                                  (record c { strict_host_key_checking = v }) r7 h6
                                  (λ _.
                                    if_cases P (bytes_eq k (codes "proxyjump"))
                                      (record c { proxy_jump = none_to_empty v }) r8 h7
                                      (λ _.
                                        if_cases P (bytes_eq k (codes "proxycommand"))
                                          (record c { proxy_command = none_to_empty v }) r9 h8
                                          (λ _. refl)))))))))

  -- A field that one keyword sets, to a function of its value.
  module _ {X : Type 0} (field : Config → X) (key : Bytes) (of : Bytes → X)
      (hit : (v : Bytes) (c : Config) → field (set_option home key v c) ≡ of v)
      (miss : (k v : Bytes) (c : Config)
        → bytes_eq k key ≡ false
        → field (set_option home k v c) ≡ field c) where
    step-field :
        (k v : Bytes) (c : Config)
        → field (set_option home k v c) ≡ (if bytes_eq k key then of v else field c)
    step-field k v c = elim (Bool-cases (bytes_eq k key)) [
      | inl e ↦
          subst (λ j. field (set_option home j v c) ≡ of v) (sym (bytes_eq→≡ k key e)) (hit v c)
          ∙ sym (if_true (bytes_eq k key) (of v) (field c) e)
      | inr n ↦ miss k v c n ∙ sym (if_false (bytes_eq k key) (of v) (field c) n)
    ]

    read-field :
        (ss : List Setting) (c : Config) (val : Bytes)
        → field c ≡ of val
        → field (read_settings ss c) ≡ of (last_from key val ss)
    unfolding read_settings
    read-field [] c val e = e
    read-field ((k, v) ∷ ss) c val e =
        read-field ss (set_option home k (trim_space v) c)
          (if bytes_eq k key then trim_space v else val)
          (step-field k (trim_space v) c ∙ chosen (bytes_eq k key))
      where
        chosen :
            (b : Bool)
            → (if b then of (trim_space v) else field c) ≡ of (if b then trim_space v else val)
        chosen true = refl
        chosen false = e

  pub read-host_name :
      (ss : List Setting) (c : Config) (val : Bytes)
      → c.host_name ≡ val
      → (read_settings ss c).host_name ≡ (last_from (codes "hostname") val ss)
  unfolding set_option bytes_eq
  read-host_name =
      read-field (λ c. c.host_name) (codes "hostname") (λ v. v) (λ v c. refl)
        (λ k v c n.
          unchanged (λ c. c.host_name) k v c (λ t. absurd (false≢true (sym n ∙ t))) (λ t. refl)
            (λ t. refl) (λ t. refl) (λ t. refl) (λ t. refl) (λ t. refl) (λ t. refl) (λ t. refl))

  pub read-port :
      (ss : List Setting) (c : Config) (val : Bytes)
      → c.port ≡ val
      → (read_settings ss c).port ≡ (last_from (codes "port") val ss)
  unfolding set_option bytes_eq
  read-port =
      read-field (λ c. c.port) (codes "port") (λ v. v) (λ v c. refl)
        (λ k v c n.
          unchanged (λ c. c.port) k v c (λ t. refl) (λ t. absurd (false≢true (sym n ∙ t)))
            (λ t. refl) (λ t. refl) (λ t. refl) (λ t. refl) (λ t. refl) (λ t. refl) (λ t. refl))

  pub read-user :
      (ss : List Setting) (c : Config) (val : Bytes)
      → c.user ≡ val
      → (read_settings ss c).user ≡ (last_from (codes "user") val ss)
  unfolding set_option bytes_eq
  read-user =
      read-field (λ c. c.user) (codes "user") (λ v. v) (λ v c. refl)
        (λ k v c n.
          unchanged (λ c. c.user) k v c (λ t. refl) (λ t. refl)
            (λ t. absurd (false≢true (sym n ∙ t))) (λ t. refl) (λ t. refl) (λ t. refl) (λ t. refl)
            (λ t. refl) (λ t. refl))

  pub read-only :
      (ss : List Setting) (c : Config) (val : Bytes)
      → c.identities_only ≡ bytes_eq val (codes "yes")
      → (read_settings ss c).identities_only
        ≡ bytes_eq (last_from (codes "identitiesonly") val ss) (codes "yes")
  unfolding set_option bytes_eq
  read-only =
      read-field (λ c. c.identities_only) (codes "identitiesonly") (λ v. bytes_eq v (codes "yes"))
        (λ v c. refl)
        (λ k v c n.
          unchanged (λ c. c.identities_only) k v c (λ t. refl) (λ t. refl) (λ t. refl) (λ t. refl)
            (λ t. absurd (false≢true (sym n ∙ t))) (λ t. refl) (λ t. refl) (λ t. refl) (λ t. refl))

  pub read-checking :
      (ss : List Setting) (c : Config) (val : Bytes)
      → c.strict_host_key_checking ≡ val
      → (read_settings ss c).strict_host_key_checking
        ≡ (last_from (codes "stricthostkeychecking") val ss)
  unfolding set_option bytes_eq
  read-checking =
      read-field (λ c. c.strict_host_key_checking) (codes "stricthostkeychecking") (λ v. v)
        (λ v c. refl)
        (λ k v c n.
          unchanged (λ c. c.strict_host_key_checking) k v c (λ t. refl) (λ t. refl) (λ t. refl)
            (λ t. refl) (λ t. refl) (λ t. refl) (λ t. absurd (false≢true (sym n ∙ t))) (λ t. refl)
            (λ t. refl))

  pub read-jump :
      (ss : List Setting) (c : Config) (val : Bytes)
      → c.proxy_jump ≡ none_to_empty val
      → (read_settings ss c).proxy_jump ≡ none_to_empty (last_from (codes "proxyjump") val ss)
  unfolding set_option bytes_eq
  read-jump =
      read-field (λ c. c.proxy_jump) (codes "proxyjump") (λ v. none_to_empty v) (λ v c. refl)
        (λ k v c n.
          unchanged (λ c. c.proxy_jump) k v c (λ t. refl) (λ t. refl) (λ t. refl) (λ t. refl)
            (λ t. refl) (λ t. refl) (λ t. refl) (λ t. absurd (false≢true (sym n ∙ t))) (λ t. refl))

  pub read-command :
      (ss : List Setting) (c : Config) (val : Bytes)
      → c.proxy_command ≡ none_to_empty val
      → (read_settings ss c).proxy_command ≡ none_to_empty (last_from (codes "proxycommand") val ss)
  unfolding set_option bytes_eq
  read-command =
      read-field (λ c. c.proxy_command) (codes "proxycommand") (λ v. none_to_empty v) (λ v c. refl)
        (λ k v c n.
          unchanged (λ c. c.proxy_command) k v c (λ t. refl) (λ t. refl) (λ t. refl) (λ t. refl)
            (λ t. refl) (λ t. refl) (λ t. refl) (λ t. refl) (λ t. absurd (false≢true (sym n ∙ t))))
