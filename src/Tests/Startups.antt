-- ===== src/Tests/Startups.antt =====
-- A process whose calls succeed.
use flux_operator.Base.{true, lookup, refl, none, some, [], ok, err, errorf}
use flux_operator.Base.Int.{pos}
use flux_operator.Entitlement.Client.{default_client, new_client}
use flux_operator.Entitlement.Secret.{Env}
use flux_operator.Entitlement.Secret
use flux_operator.Report
use flux_operator.Startup.{Process, main}
use flux_operator.Startup.Laws.{Ran, main_ok}
use flux_operator.Tests.Cluster.{W, report_items, report_env, vendor_secret}

abbrev settled_env : Env W
settled_env = record {
  client = default_client (λ s. s) "other";
  secrets = record {
    get_secret = λ namespace name w. (ok vendor_secret, w);
    create = λ s w. (none, w);
    update = λ s w. (none, w);
    delete = λ s w. (none, w);
  };
  reports = record {
    get_report = λ n ns w. (ok [], w);
    patch_report = λ a b c d w. (none, w);
    now_unix = λ w. "0";
  };
  get_uid = λ w. (ok "uid", w);
  status_manager = "";
  watch_namespace = "";
}

abbrev sample_process : Process report_items W
sample_process = record {
  runtime_namespace = "";
  marketplace = some "";
  encoded = λ s. s;
  load = λ w. err (errorf "no region");
  parse = λ flags w. (
    ok (record {
      concurrent = pos 4;
      metrics_addr = ":8080";
      health_addr = ":8081";
      enable_leader_election = true;
      storage_path = "/data";
    }),
    w,
  );
  must_register = λ names w. (ok tt, w);
  new_manager = λ options w. (ok tt, w);
  entitlement = settled_env;
  report = report_env;
  register_entitlement = λ w. (ok tt, w);
  register_instance = λ path name w. (ok tt, w);
  register_artifact = λ name w. (ok tt, w);
  register_report = λ w. (ok tt, w);
  start = λ w. (ok tt, w);
}

main_ok_example : Ran sample_process tt tt
unfolding main new_client Secret.setup_with_manager lookup Report.setup_with_manager
main_ok_example = main_ok sample_process tt refl
