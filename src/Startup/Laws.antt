-- ===== src/Startup/Laws.antt =====
-- What has been done when the manager is started.
use flux_operator.Base.{
  String, ◌≡◌, refl, ap, ◌⊎◌, Option, none, some, Error, Result, ok, err, panic, failing, wrapping,
  [], ◌∷◌,
}
use flux_operator.Base.Effect.{M, after, after_done, act}
use flux_operator.Api.Instance.{default_instance_name}
use flux_operator.Reporter.Items.{Items}
use flux_operator.Entitlement.Client.{
  Client, Marketplace, new_client, vendor_of, default_client, default_vendor, amazon_client,
}
use flux_operator.Entitlement.Client.Laws.{new_client-vendor}
use flux_operator.Entitlement.Secret.{Secret, init_entitlement_secret}
use flux_operator.Entitlement.Secret
use flux_operator.Report.{init_report}
use flux_operator.Report
use flux_operator.Startup.{Process, main, watched, entitlement_env, report_env}
use flux_operator.Startup.Options.{controller_name, declared_flags, Flags, manager_options}

prefixed_done :
    {S A B : Type 0} (p : String) (x : Result A × S) (f : A → M S B) {b : B} {t : S}
    → after (wrapping p x.0, x.1) f ≡ (ok b, t)
    → (a : A) × ((s : S) × (x ≡ (ok a, s)) × (f a s ≡ (ok b, t)))
prefixed_done p (ok a, s) f h = (a, (s, refl, h))
prefixed_done p (err e, s) f h = absurd (cc)
prefixed_done p (panic, s) f h = absurd (cc)

pure_done :
    {S A B : Type 0} (r : Result A) (s : S) (f : A → M S B) {b : B} {t : S}
    → after (r, s) f ≡ (ok b, t)
    → (a : A) × (r ≡ ok a) × (f a s ≡ (ok b, t))
pure_done (ok a) s f h = (a, refl, h)
pure_done (err e) s f h = absurd (cc)
pure_done panic s f h = absurd (cc)

act_done :
    {S : Type 0} (x : Option Error × S) {a : Unit {0}} {s : S}
    → ◌≡◌ {A = Result (Unit {0}) × S} (failing x.0, x.1) (ok a, s)
    → x ≡ (none, s)
act_done (none, s) h = ap (λ z. (none, z.1)) h
act_done (some e, s) h = absurd (cc)

module _ {items : Items} {W : Type 0} (p : Process items W) where
  open p use {
    parse, must_register, new_manager, register_entitlement, register_instance, register_artifact,
    register_report,
  }

  -- The steps of a process that came to its end, in order.
  pub record Ran (w v : W) : Type 0 where
    pub u1 : W
    pub u2 : W
    pub w1 : W
    pub w2 : W
    pub w3 : W
    pub w4 : W
    pub w5 : W
    pub w6 : W
    pub w7 : W
    pub client : Client W
    pub secret : Secret
    pub flags : Flags
    pub parsed : parse declared_flags w ≡ (ok flags, u1)
    pub metered : must_register ("flux_instance_info" ∷ "flux_resource_info" ∷ []) u1 ≡ (ok tt, u2)
    pub managed : new_manager (manager_options flags (watched p)) u2 ≡ (ok tt, w1)
    pub vendor :
        ((vendor_of p.marketplace ≡ default_vendor)
          × (client ≡ default_client p.encoded default_vendor))
        ⊎ ((vendor_of p.marketplace ≡ "controlplane-aws")
            × ((mc : Marketplace W) × (p.load w1 ≡ ok mc)
                × (client ≡ amazon_client mc "controlplane-aws")))
    pub initialised : init_entitlement_secret (entitlement_env p client) w1 ≡ (ok secret, w2)
    pub entitlement : register_entitlement w2 ≡ (ok tt, w3)
    pub instance_ : register_instance flags.storage_path controller_name w3 ≡ (ok tt, w4)
    pub artifact : register_artifact controller_name w4 ≡ (ok tt, w5)
    pub applied : init_report (report_env p) default_instance_name (watched p) w5 ≡ (none, w6)
    pub report : register_report w6 ≡ (ok tt, w7)
    pub started : p.start w7 ≡ (ok tt, v)

  -- A process that comes to its end has read its flags, registered the two metrics and made a
  -- manager with the options for these flags and for the namespace that is watched. It has started
  -- the manager with a client of the vendor that MARKETPLACE_TYPE stands for, after the entitlement
  -- secret was initialised for that client and the report was applied (or its apply was a
  -- conflict), both in the namespace that is watched, and after each of the four controllers was
  -- registered, in this order, that of the instance with the storage path of the flags.
  pub main_ok : (w : W) {v : W} → main p w ≡ (ok tt, v) → Ran w v
  unfolding main Secret.setup_with_manager Report.setup_with_manager
  main_ok w {v} h =
      let (flags, (u1, q1, k1)) = after_done (parse declared_flags w) _ h in
      let (b2, (u2, q2, k2)) =
        after_done (must_register ("flux_instance_info" ∷ "flux_resource_info" ∷ []) u1) _ k1 in
      let (a1, (w1, p1, h1)) =
        after_done (new_manager (manager_options flags (watched p)) u2) _ k2 in
      let (c, pc, h2) = pure_done (new_client p.encoded (p.load w1) p.marketplace) w1 _ h1 in
      let (a3, (w3, p3, h3)) =
        after_done (Secret.setup_with_manager (entitlement_env p c) register_entitlement w1) _ h2 in
      let (s, (w2, p2, e2)) =
        after_done (init_entitlement_secret (entitlement_env p c) w1) (λ _. register_entitlement)
          p3 in
      let (a4, (w4, p4, h4)) =
        after_done (register_instance flags.storage_path controller_name w3) _ h3 in
      let (a5, (w5, p5, h5)) = after_done (register_artifact controller_name w4) _ h4 in
      let (a7, (w7, p7, h7)) =
        after_done (Report.setup_with_manager (report_env p) register_report w5) _ h5 in
      let (a6, (w6, p6, k6)) =
        prefixed_done "failed to initialize FluxReport: "
          (act (init_report (report_env p) default_instance_name (watched p)) w5)
          (λ _. register_report) {t = w7} p7 in
      record {
        u1 = u1;
        u2 = u2;
        flags = flags;
        parsed = q1;
        metered = q2;
        w1 = w1;
        w2 = w2;
        w3 = w3;
        w4 = w4;
        w5 = w5;
        w6 = w6;
        w7 = w7;
        client = c;
        secret = s;
        managed = p1;
        vendor = new_client-vendor p.encoded (p.load w1) p.marketplace pc;
        initialised = p2;
        entitlement = e2;
        instance_ = p4;
        artifact = p5;
        applied =
            act_done (init_report (report_env p) default_instance_name (watched p) w5) {s = w6} p6;
        report = k6;
        started = h7;
      }
