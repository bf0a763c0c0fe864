-- ===== src/Dhcp/Edit/Classes.antt =====
-- CreateClientClass4, UpdateClientClass4, DeleteClientClass4, and the two edits of
-- UpdateGlobalConfig. The copy has an array of its own for the client classes.
use ddi_agent.Base.{String, Bool, List, [], ◌∷◌, ◌++◌, str_eq}
use ddi_agent.Slice.{Shared, index_of, update_at, delete_at}
use ddi_agent.Dhcp.Config.{ClientClass, GenenalConfig, Dhcp4Config, Dhcp6Config}
use ddi_agent.Dhcp.Request.{
  ClientClass4Request, DeleteClientClass4Request, UpdateGlobalConfigRequest,
}
use ddi_agent.Dhcp.Proxy.{Result, ok, no_found_clientclass4}
use ddi_agent.Dhcp.Handler.{gen_dhcp_option_datas}
use ddi_agent.Dhcp.Change.{or_no_found, copy_only}

abbrev pub has_name : String → ClientClass → Bool
has_name name clientclass = str_eq clientclass.name name

abbrev pub set_classes : List ClientClass → Dhcp4Config → Dhcp4Config
set_classes classes conf = record conf {
  dhcp4 = record conf.dhcp4 { genenal = record conf.dhcp4.genenal { client_classes = classes } };
}

unfoldable pub create_client_class4 :
    ClientClass4Request → Dhcp4Config → Result (Shared Dhcp4Config)
create_client_class4 req conf = ok (
    copy_only conf (
      set_classes
        (conf.dhcp4.genenal.client_classes ++ record { name = req.name; test = req.regexp } ∷ [])
        conf))

unfoldable pub update_client_class4 :
    ClientClass4Request → Dhcp4Config → Result (Shared Dhcp4Config)
update_client_class4 req conf =
    or_no_found (index_of (has_name req.name) conf.dhcp4.genenal.client_classes)
      (no_found_clientclass4 req.name)
      λ i. copy_only conf (
        set_classes
          (update_at i (λ clientclass. record clientclass { test = req.regexp })
            conf.dhcp4.genenal.client_classes)
          conf)

unfoldable pub delete_client_class4 :
    DeleteClientClass4Request → Dhcp4Config → Result (Shared Dhcp4Config)
delete_client_class4 req conf =
    or_no_found (index_of (has_name req.name) conf.dhcp4.genenal.client_classes)
      (no_found_clientclass4 req.name)
      λ i. copy_only conf (set_classes (delete_at i conf.dhcp4.genenal.client_classes) conf)

unfoldable pub global_config : String → UpdateGlobalConfigRequest → GenenalConfig → GenenalConfig
unfolding gen_dhcp_option_datas
global_config option_name_dns req conf = record conf {
  valid_lifetime = req.valid_lifetime;
  min_valid_lifetime = req.min_valid_lifetime;
  max_valid_lifetime = req.max_valid_lifetime;
  option_datas = gen_dhcp_option_datas option_name_dns req.domain_servers [];
}

unfoldable pub update_global_config4 : UpdateGlobalConfigRequest → Dhcp4Config → Dhcp4Config
unfolding global_config
update_global_config4 req conf = record conf {
  dhcp4 = record conf.dhcp4 {
    genenal = global_config "domain-name-servers" req conf.dhcp4.genenal;
  };
}

unfoldable pub update_global_config6 : UpdateGlobalConfigRequest → Dhcp6Config → Dhcp6Config
unfolding global_config
update_global_config6 req conf = record conf {
  dhcp6 = record conf.dhcp6 { genenal = global_config "dns-servers" req conf.dhcp6.genenal };
}
