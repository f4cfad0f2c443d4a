-- ===== src/Init/Properties/Guards.antt =====
-- What a client of the property socket can do, whatever it sends.
use android4_4_4_r.Prelude.{
  c_string, ℕ, ◌-◌, ◌≤◌, ◌<◌, List, [], ◌∷◌, ◌++◌, length, length-take, take, drop, not, subst, sym,
  Any, ◌&&◌, ◌≡◌, ◌≢◌, ◌⊎◌, inl, inr, refl, arith, Bool, true, false, Option, none, some,
  Option-cases, Bool-cases, Text, codes, text_eq, text_eq_iff, has_prefix, ◌==◌, if◌then◌else◌,
}
use android4_4_4_r.Init.Platform.{Platform}
use android4_4_4_r.Init.Properties.{is_legal_property_name}
use android4_4_4_r.Init.Properties.Access.{
  Security, Perm, property_perms, control_perms, check_mac_perms, check_control_mac_perms,
  control_entry, property_entry, check_control_perms, check_perms, without_ro, grants, Request,
  Reply, ignored, control, set_property, handle_property_set_fd, serve,
}

-- The uid or the gid of an entry is the caller's, and is not 0.
abbrev pub IsFor : ℕ → ℕ → Perm → Type 0
IsFor uid gid p = ((uid ≢ 0) × (p.uid ≡ uid)) ⊎ ((gid ≢ 0) × (p.gid ≡ gid))

module _ (sec : Security) where
  -- Where SELinux is enabled, it knows the caller's context and allows the access to the name.
  abbrev pub IsLabelled : Text → Option Text → Type 0
  IsLabelled name sctx =
      sec.selinux_enabled ≡ true
      → (source : Text) × (tctx : Text) × (sctx ≡ some source)
        × (sec.selabel_lookup name ≡ some tctx)
        × (sec.selinux_check_access source tctx name ≡ true)

  check_mac_perms-IsLabelled :
      (name : Text) (sctx : Option Text)
      → check_mac_perms sec name sctx ≡ true
      → IsLabelled name sctx
  unfolding check_mac_perms
  check_mac_perms-IsLabelled name none h on = ground arith
  check_mac_perms-IsLabelled name (some source) h on =
      elim (Option-cases (sec.selabel_lookup name)) [
        | inl e ↦ ground arith
        | inr (tctx, e) ↦ (source, tctx, refl, e, ground arith)
      ]

  control_entry-IsFor :
      (ps : List Perm) (name : Text) (uid gid : ℕ)
      → control_entry sec ps name uid gid ≡ true
      → Any (λ p. (p.prefix ≡ name) × IsFor uid gid p) ps
  unfolding control_entry
  control_entry-IsFor [] name uid gid h = ground arith
  control_entry-IsFor (p ∷ ps) name uid gid h =
      elim (Bool-cases (text_eq p.prefix name && grants sec p uid gid)) [
        | inl here ↦ inl (ground (arith, text_eq_iff p.prefix name), ground arith)
        | inr there ↦ inr (control_entry-IsFor ps name uid gid (ground arith))
      ]

  property_entry-IsFor :
      (ps : List Perm) (name : Text) (uid gid : ℕ)
      → property_entry sec ps name uid gid ≡ true
      → Any (λ p. (has_prefix p.prefix name ≡ true) × IsFor uid gid p) ps
  unfolding property_entry
  property_entry-IsFor [] name uid gid h = ground arith
  property_entry-IsFor (p ∷ ps) name uid gid h =
      elim (Bool-cases (has_prefix p.prefix name && grants sec p uid gid)) [
        | inl here ↦ inl (ground arith, ground arith)
        | inr there ↦ inr (property_entry-IsFor ps name uid gid (ground arith))
      ]

  -- What has been established of the caller `(uid, gid)` and its context when a reply is given.
  abbrev pub IsGranted : Platform → ℕ → ℕ → Option Text → Reply → Type 0
  IsGranted pf uid gid sctx ignored = Unit
  IsGranted pf uid gid sctx (control msg service) =
      ((uid ≡ sec.aid_system)
        ⊎ ((uid ≡ 0) ⊎ Any (λ p. (p.prefix ≡ service) × IsFor uid gid p) (control_perms sec)))
      × (length service < pf.prop_value_max)
      × IsLabelled (codes "ctl." ++ service) sctx
  IsGranted pf uid gid sctx (set_property name value) =
      ((uid ≡ 0)
        ⊎ ((owner : ℕ) × ((owner ≡ uid)
              ⊎ ((owner ≡ sec.aid_bluetooth) × (sec.multiuser_get_app_id uid ≡ owner)))
            × Any (λ p. (has_prefix p.prefix (without_ro sec name) ≡ true) × IsFor owner gid p)
                (property_perms sec)))
      × (is_legal_property_name pf name ≡ true)
      × (length value < pf.prop_value_max)
      × (has_prefix (codes "ctl.") name ≡ false)
      × IsLabelled (without_ro sec name) sctx

  check_control_mac_perms-IsLabelled :
      (pf : Platform) (name : Text) (sctx : Option Text)
      → check_control_mac_perms sec pf name sctx ≡ true
      → (length name < pf.prop_value_max) × IsLabelled (codes "ctl." ++ name) sctx
  unfolding check_control_mac_perms
  check_control_mac_perms-IsLabelled pf name sctx h =
      let mac : check_mac_perms sec (codes "ctl." ++ name) sctx ≡ true = ground arith in
      (ground arith, check_mac_perms-IsLabelled (codes "ctl." ++ name) sctx mac)

  check_control_perms-IsGranted :
      (pf : Platform) (msg name : Text) (uid gid : ℕ) (sctx : Option Text)
      → check_control_perms sec pf name uid gid sctx ≡ true
      → IsGranted pf uid gid sctx (control msg name)
  unfolding check_control_perms
  check_control_perms-IsGranted pf msg name uid gid sctx h =
      let (fits, labelled) = check_control_mac_perms-IsLabelled pf name sctx (ground arith) in
      elim (Bool-cases (control_entry sec (control_perms sec) name uid gid)) [
        | inl e ↦
            (inr (inr (control_entry-IsFor (control_perms sec) name uid gid e)), fits, labelled)
        | inr e ↦ (ground arith, fits, labelled)
      ]

  check_perms-IsGranted :
      (name : Text) (uid gid : ℕ) (sctx : Option Text)
      → check_perms sec name uid gid sctx ≡ true
      → ((uid ≡ 0)
          ⊎ ((owner : ℕ) × ((owner ≡ uid)
                ⊎ ((owner ≡ sec.aid_bluetooth) × (sec.multiuser_get_app_id uid ≡ owner)))
              × Any
                  (λ p. (has_prefix p.prefix (without_ro sec name) ≡ true) × IsFor owner gid p)
                  (property_perms sec)))
        × IsLabelled (without_ro sec name) sctx
  unfolding check_perms
  check_perms-IsGranted name uid gid sctx h =
      let app_id = sec.multiuser_get_app_id uid in
      let owner = if app_id == sec.aid_bluetooth then app_id else uid in
      let mac : check_mac_perms sec (without_ro sec name) sctx ≡ true = ground arith in
      elim (Bool-cases (property_entry sec (property_perms sec) (without_ro sec name) owner gid)) [
        | inl e ↦ (
          inr (
            owner,
            ground arith,
            property_entry-IsFor (property_perms sec) (without_ro sec name) owner gid e,
          ),
          check_mac_perms-IsLabelled (without_ro sec name) sctx mac,
        )
        | inr e ↦ (inl (ground arith), check_mac_perms-IsLabelled (without_ro sec name) sctx mac)
      ]

length-c_string : (s : List ℕ) → length (c_string s) ≤ length s
unfolding c_string
length-c_string [] = omega arith
length-c_string (c ∷ s) = ground (arith, length-c_string s)

module _ (pf : Platform) (sec : Security) (req : Request) (uid gid : ℕ) where
  if-IsGranted :
      (b : Bool) (x y : Reply)
      → (b ≡ true → IsGranted sec pf uid gid req.source_ctx x)
      → (b ≡ false → IsGranted sec pf uid gid req.source_ctx y)
      → IsGranted sec pf uid gid req.source_ctx (if b then x else y)
  if-IsGranted true x y h k = h refl
  if-IsGranted false x y h k = k refl

  serve-IsGranted :
      0 < pf.prop_value_max → IsGranted sec pf uid gid req.source_ctx (serve pf sec req uid gid)
  unfolding serve
  serve-IsGranted room =
      let name = c_string (take (pf.prop_name_max - 1) req.name) in
      let value = c_string (take (pf.prop_value_max - 1) req.value) in
      let fits : length value < pf.prop_value_max = omega (
        arith,
        length-c_string (take (pf.prop_value_max - 1) req.value),
        length-take (pf.prop_value_max - 1) req.value,
      ) in
      if-IsGranted (not req.whole) _ _ (λ _. tt)
        (λ _.
          if-IsGranted (not req.is_setprop) _ _ (λ _. tt)
            (λ _.
              if-IsGranted (not (is_legal_property_name pf name)) _ _ (λ _. tt)
                (λ legal.
                  if-IsGranted (has_prefix (codes "ctl.") name) _ _
                    (λ _.
                      if-IsGranted (check_control_perms sec pf value uid gid req.source_ctx) _ _
                        (check_control_perms-IsGranted sec pf (drop 4 name) value uid gid
                          req.source_ctx)
                        (λ _. tt))
                    (λ not_ctl.
                      if-IsGranted (check_perms sec name uid gid req.source_ctx) _ _
                        (λ h.
                          let (owner, labelled) =
                            check_perms-IsGranted sec name uid gid req.source_ctx h in
                          (owner, ground arith, fits, not_ctl, labelled))
                        (λ _. tt)))))

  -- Whatever arrives on the socket, a service is controlled and a property set only for a caller
  -- whom the tables of permissions, the system user or root stand for, with SELinux's consent where
  -- it is enabled; a property's name is then legal and not one of `ctl.`, and what is set fits.
  pub handle_property_set_fd-IsGranted :
      0 < pf.prop_value_max
      → req.peercred ≡ some (uid, gid)
      → IsGranted sec pf uid gid req.source_ctx (handle_property_set_fd pf sec req)
  unfolding handle_property_set_fd
  handle_property_set_fd-IsGranted room e =
      let cases : (handle_property_set_fd pf sec req ≡ ignored)
          ⊎ (handle_property_set_fd pf sec req ≡ serve pf sec req uid gid) =
        ground arith in
      elim cases [
        | inl same ↦ subst (IsGranted sec pf uid gid req.source_ctx) (sym same) tt
        | inr same ↦
            subst (IsGranted sec pf uid gid req.source_ctx) (sym same) (serve-IsGranted room)
      ]
