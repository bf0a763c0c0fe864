-- ===== src/Dns/Keys.antt =====
-- The keys of pkg/dns/kafkaconsumer/kafkacmd.go: which method a key calls.
use ddi_agent.Base.{◌≡◌, refl, some}
use ddi_agent.Dns.Methods.{Method}
use ddi_agent.Dns.Consumer.{method_of_key, key_of}

pub dns_method_of_key-key_of : (m : Method) → method_of_key (key_of m) ≡ some m
unfolding method_of_key
dns_method_of_key-key_of Method.start_dns = refl
dns_method_of_key-key_of Method.stop_dns = refl
dns_method_of_key-key_of Method.create_acl = refl
dns_method_of_key-key_of Method.batchcreate_acl = refl
dns_method_of_key-key_of Method.update_acl = refl
dns_method_of_key-key_of Method.delete_acl = refl
dns_method_of_key-key_of Method.create_view = refl
dns_method_of_key-key_of Method.update_view = refl
dns_method_of_key-key_of Method.delete_view = refl
dns_method_of_key-key_of Method.create_authzone = refl
dns_method_of_key-key_of Method.update_authzone = refl
dns_method_of_key-key_of Method.delete_authzone = refl
dns_method_of_key-key_of Method.create_authzoneauthrrs = refl
dns_method_of_key-key_of Method.update_authzoneaxfr = refl
dns_method_of_key-key_of Method.update_authzoneixfr = refl
dns_method_of_key-key_of Method.create_forwardzone = refl
dns_method_of_key-key_of Method.update_forwardzone = refl
dns_method_of_key-key_of Method.delete_forwardzone = refl
dns_method_of_key-key_of Method.create_authrr = refl
dns_method_of_key-key_of Method.update_authrr = refl
dns_method_of_key-key_of Method.delete_authrr = refl
dns_method_of_key-key_of Method.batchcreate_authrr = refl
dns_method_of_key-key_of Method.create_redirection = refl
dns_method_of_key-key_of Method.update_redirection = refl
dns_method_of_key-key_of Method.delete_redirection = refl
dns_method_of_key-key_of Method.create_nginxproxy = refl
dns_method_of_key-key_of Method.update_nginxproxy = refl
dns_method_of_key-key_of Method.delete_nginxproxy = refl
dns_method_of_key-key_of Method.update_dnsglobalconfig = refl
dns_method_of_key-key_of Method.upload_dnslog = refl
dns_method_of_key-key_of Method.flush_forwardzone = refl
