-- ===== src/Cli/Agents.antt =====
-- What the installation of the LaunchAgents leaves.
use macbastion.Prelude.{
  String, Bool, false, not, ◌&&◌, ◌||◌, ◌≡◌, refl, ◌∙◌, inl, inr, Bool-cases, Option, none, some,
  List, [], ◌∷◌, arith, any, str_eq, eq_iff, keep_if, if◌then◌else◌,
}
use macbastion.Prelude.Text.{mem_str}
use macbastion.Prelude.Dict
use macbastion.Exec.{if_rule}
use macbastion.Supervisor.{ModuleSpec, chimera_modules}
use macbastion.Cli.{
  Process, Host, launch_agent_path, external_agent_path, bootstrapped, bootout, unlink, write_text,
  launch_agent_plist, external_agent_plist, install_external, install_externals, install_end,
  install, uninstall_external, uninstall_externals, uninstall,
}

module _ (p : Process) where
  -- the path is that of the agent of an external module among these
  abbrev pub is_external_agent : List ModuleSpec → String → Bool
  is_external_agent specs k =
      any (λ (s : ModuleSpec). s.external && str_eq (external_agent_path p s.name) k) specs

  -- the path is that of one of CHIMERA's agents
  abbrev pub is_agent : String → Bool
  is_agent k = str_eq (launch_agent_path p) k || is_external_agent chimera_modules k

  -- a key that two tables agree on
  abbrev SameAt : String → Host → Host → Type 0
  SameAt k h h' = Dict.get h.files k ≡ Dict.get h'.files k

  bootstrapped-files :
      (e : Option String) (path : String) (h : Host) → (bootstrapped p e path h).files ≡ h.files
  bootstrapped-files none path h = refl
  bootstrapped-files (some text) path h = refl

  mem_str-keep_if :
      (path k : String) (xs : List String)
      → mem_str k (keep_if (λ a. not (str_eq a path)) xs) ≡ (not (str_eq path k) && mem_str k xs)
  mem_str-keep_if path k [] = ground arith
  mem_str-keep_if path k (x ∷ xs) =
      ground (arith, eq_iff x path, eq_iff x k, eq_iff path k, mem_str-keep_if path k xs)

  uninstall_externals-get :
      (specs : List ModuleSpec) (h : Host) (k : String)
      → Dict.get (uninstall_externals p specs h).files k
        ≡ (if is_external_agent specs k then none else Dict.get h.files k)
  uninstall_externals-get [] h k = refl
  uninstall_externals-get (s ∷ specs) h k = ground (
    arith,
    uninstall_externals-get specs (uninstall_external p s h) k,
    Dict.get-remove h.files (external_agent_path p s.name) k,
  )

  uninstall_externals-loaded :
      (specs : List ModuleSpec) (h : Host) (k : String)
      → mem_str k (uninstall_externals p specs h).loaded ≡ (
          if is_external_agent specs k
          then p.bootout_fails k && mem_str k h.loaded
          else mem_str k h.loaded)
  uninstall_externals-loaded [] h k = ground arith
  uninstall_externals-loaded (s ∷ specs) h k = ground (
    arith,
    uninstall_externals-loaded specs (uninstall_external p s h) k,
    eq_iff (external_agent_path p s.name) k,
    mem_str-keep_if (external_agent_path p s.name) k h.loaded,
  )

  -- After `uninstall`, whatever was installed before: none of CHIMERA's agents has a file, only those
  -- are loaded that `launchctl` fails to unload, and every other file and agent is as it was.
  pub uninstall_lem :
      (h : Host) (k : String)
      → (Dict.get (uninstall p h).1.files k ≡ (if is_agent k then none else Dict.get h.files k))
        × (mem_str k (uninstall p h).1.loaded
            ≡ (if is_agent k then p.bootout_fails k && mem_str k h.loaded else mem_str k h.loaded))
  unfolding uninstall
  uninstall_lem h k =
      let path = launch_agent_path p in
      let h' = unlink p path (bootout p path h) in
      (
        ground
            (arith, uninstall_externals-get chimera_modules h' k, Dict.get-remove h.files path k),
        ground (
          arith,
          uninstall_externals-loaded chimera_modules h' k,
          eq_iff path k,
          mem_str-keep_if path k h.loaded,
        ),
      )

  -- a path that two hosts agree on
  abbrev pub Agree : String → Host → Host → Type 0
  Agree k h h' =
      (Dict.get h.files k ≡ Dict.get h'.files k) × (mem_str k h.loaded ≡ mem_str k h'.loaded)

  put_agent-Agree :
      (e : Option String) (path text k : String) (h : Host)
      → str_eq path k ≡ false
      → Agree k h (bootstrapped p e path (bootout p path (write_text p path text h)))
  put_agent-Agree none path text k h other = (
    ground (arith, Dict.get-put h.files path k text),
    ground (arith, mem_str-keep_if path k h.loaded),
  )
  put_agent-Agree (some stderr) path text k h other = (
    ground (arith, Dict.get-put h.files path k text),
    ground (arith, mem_str-keep_if path k h.loaded),
  )

  module _ (stderr_of : String → Option String) (socket_dir : String) where
    install_external-Agree :
        (s : ModuleSpec) (k : String) (h : Host)
        → (s.external && str_eq (external_agent_path p s.name) k) ≡ false
        → Agree k h (install_external p stderr_of socket_dir s h)
    install_external-Agree s k h other =
        let path = external_agent_path p s.name in
        if_rule (Agree k h) s.external _ _
          (λ ext.
            put_agent-Agree (stderr_of path) path
              (external_agent_plist p s.name socket_dir s.app_bundle) k h (ground arith))
          (λ own. (refl, refl))

    install_externals-Agree :
        (specs : List ModuleSpec) (k : String) (h : Host)
        → is_external_agent specs k ≡ false
        → Agree k h (install_externals p stderr_of socket_dir specs h)
    install_externals-Agree [] k h other = (refl, refl)
    install_externals-Agree (s ∷ specs) k h other =
        let (files, loaded) =
          install_externals-Agree specs k (install_external p stderr_of socket_dir s h)
            (ground arith) in
        let (files', loaded') = install_external-Agree s k h (ground arith) in
        (files' ∙ files, loaded' ∙ loaded)

    install_end-Agree :
        (e : Option String) (k : String) (h : Host)
        → is_external_agent chimera_modules k ≡ false
        → Agree k h (install_end p stderr_of socket_dir e h).1
    install_end-Agree none k h other = install_externals-Agree chimera_modules k h other
    install_end-Agree (some stderr) k h other = (refl, refl)

    install-Agree :
        (k : String) (h : Host)
        → is_agent k ≡ false
        → Agree k h (install p stderr_of socket_dir h).1
    unfolding install
    install-Agree k h other =
        let path = launch_agent_path p in
        let text = launch_agent_plist p socket_dir in
        let put = put_agent-Agree (stderr_of path) path text k h (ground arith) in
        let end_ =
          install_end-Agree (stderr_of path) k
            (bootstrapped p (stderr_of path) path (bootout p path (write_text p path text h)))
            (ground arith) in
        (put.0 ∙ end_.0, put.1 ∙ end_.1)

    -- Whether `launchctl` accepts the agents or not: an `uninstall` after an `install` leaves no file of
    -- CHIMERA's agents, of these agents it leaves those loaded that `launchctl` fails to unload, and every
    -- other file and agent is as before the `install`.
    pub uninstall-install :
        (h : Host) (k : String)
        → let installed = (install p stderr_of socket_dir h).1 in
          let h' = (uninstall p installed).1 in
          (Dict.get h'.files k ≡ (if is_agent k then none else Dict.get h.files k))
          × (mem_str k h'.loaded ≡ (
              if is_agent k
              then p.bootout_fails k && mem_str k installed.loaded
              else mem_str k h.loaded))
    uninstall-install h k =
        let (files, loaded) = uninstall_lem (install p stderr_of socket_dir h).1 k in
        elim (Bool-cases (is_agent k)) [
          | inl ours ↦ (ground arith, ground arith)
          | inr other ↦
              let (files', loaded') = install-Agree k h other in (ground arith, ground arith)
        ]
