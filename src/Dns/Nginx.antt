-- ===== src/Dns/Nginx.antt =====
-- CreateNginxProxy, UpdateNginxProxy and DeleteNginxProxy of pkg/dns/grpcservice/dnshandler.go, and the
-- files of nginx of nameddata_handler.go: one for all proxies over HTTP, and three for each over HTTPS.
use Prim.Native.String
use ddi_agent.Base.{String, List, [], ◌∷◌, not, if◌then◌else◌}
use ddi_agent.Dns.Resource.{AgentNginxProxy}
use ddi_agent.Dns.Files.{
  FilePath, nginx_conf, nginx_key, UrlRedirect, nginx_default, nginx_ssl, bytes, nginx_conf_path,
}
use ddi_agent.Dns.Database.{text, flag, Database, nginx_proxy_row, nginx_proxy_table}
use ddi_agent.Dns.World.{Env, reload_nginx_config, list_failed, Action, ◌>>=◌, ◌>>◌}
use ddi_agent.Dns.Actions.{
  query, insert, update, delete, flush_template_files, remove_file, create_one_folder, command,
}
use ddi_agent.Dns.Requests.{CreateNginxProxyReq, UpdateNginxProxyReq, DeleteNginxProxyReq}
use ddi_agent.Dns.Acl.{by_create_time}

-- The loop over the proxies: those over HTTP.
unfoldable pub url_redirects : List AgentNginxProxy → List UrlRedirect
url_redirects [] = []
url_redirects (proxy ∷ proxies) =
    let rest = url_redirects proxies in
    if not proxy.is_https then record { domain = proxy.domain; url = proxy.url } ∷ rest else rest

abbrev pub domain_conf : String → FilePath
domain_conf domain = record { dir = nginx_conf; name = String.◌++◌ domain ".conf" }

abbrev pub domain_key : String → FilePath
domain_key domain = record { dir = nginx_key; name = String.◌++◌ domain ".key" }

abbrev pub domain_crt : String → FilePath
domain_crt domain = record { dir = nginx_key; name = String.◌++◌ domain ".crt" }

module _ {S : Type 0} (env : Env) (tables : Database S) where
  abbrev nginx_reload : Action S (Unit {0})
  nginx_reload = command env reload_nginx_config

  unfoldable pub rewrite_nginx_http_file : Action S (Unit {0})
  unfolding url_redirects flush_template_files command
  rewrite_nginx_http_file = do
    proxies ← query list_failed (tables.fill_nginx_proxies by_create_time)
    flush_template_files env nginx_conf_path (nginx_default (url_redirects proxies))
    nginx_reload

  unfoldable pub add_nginx_https_file : String → String → AgentNginxProxy → Action S (Unit {0})
  unfolding create_one_folder flush_template_files command
  add_nginx_https_file key crt proxy = do
    create_one_folder env nginx_key
    flush_template_files env (domain_key proxy.domain) (bytes key)
    flush_template_files env (domain_crt proxy.domain) (bytes crt)
    flush_template_files env (domain_conf proxy.domain) (nginx_ssl proxy)
    nginx_reload

  unfoldable pub update_nginx_https_file : AgentNginxProxy → Action S (Unit {0})
  unfolding remove_file flush_template_files command
  update_nginx_https_file proxy = do
    remove_file env (domain_conf proxy.domain)
    flush_template_files env (domain_conf proxy.domain) (nginx_ssl proxy)
    nginx_reload

  unfoldable pub remove_nginx_https_file : String → Action S (Unit {0})
  unfolding remove_file command
  remove_nginx_https_file domain = do
    remove_file env (domain_conf domain)
    remove_file env (domain_key domain)
    remove_file env (domain_crt domain)
    nginx_reload

  unfoldable pub create_nginx_proxy : CreateNginxProxyReq → Action S (Unit {0})
  create_nginx_proxy req =
      let proxy : AgentNginxProxy = record {
        domain = req.domain;
        url = req.url;
        is_https = req.is_https;
      } in
      insert tables (nginx_proxy_row proxy)
      >> (if req.is_https
          then add_nginx_https_file req.key req.crt proxy
          else rewrite_nginx_http_file)

  unfoldable pub update_nginx_proxy : UpdateNginxProxyReq → Action S (Unit {0})
  update_nginx_proxy req =
      update tables nginx_proxy_table (("url", text req.url) ∷ [])
        (("domain", text req.domain) ∷ ("is_https", flag req.is_https) ∷ [])
      >> (if req.is_https
          then update_nginx_https_file
              (record { domain = req.domain; url = req.url; is_https = req.is_https })
          else rewrite_nginx_http_file)

  unfoldable pub delete_nginx_proxy : DeleteNginxProxyReq → Action S (Unit {0})
  delete_nginx_proxy req =
      delete tables nginx_proxy_table
        (("domain", text req.domain) ∷ ("is_https", flag req.is_https) ∷ [])
      >> (if req.is_https then remove_nginx_https_file req.domain else rewrite_nginx_http_file)
