-- ===== src/Proxy/Exchange/Once.antt =====
-- What a failure at the first use of the proxy leaves behind.
use identity_mservice.Base.{Bytes, ◌≡◌, codes, some, none, refl}
use identity_mservice.Model.{Error, message}
use identity_mservice.Backend.{Backend, err}
use identity_mservice.Proxy.Oauth.{SingpassConfig}
use identity_mservice.Proxy.Userinfo.{resolve_jwks_uri}
use identity_mservice.Proxy.Exchange.{
  Outside, fetched_keys, load_client_keys, new_singpass_proxy, get_singpass_proxy, get_access_token,
}

module _ {b : Backend} (o : Outside b) (cfg : SingpassConfig) where
  -- If the client keys cannot be loaded when the process first asks for the proxy, then from then
  -- on, whatever has happened since, GetAccessToken of the process's proxy fails with the error
  -- that no signing key is configured and sends nothing, for every code.
  pub get_singpass_proxy_once :
      (s s' : b.Net × b.Os) (e : Error) (code : Bytes)
      → (load_client_keys o (fetched_keys o (resolve_jwks_uri b cfg.jwks_uri) s).1).0 ≡ err e
      → get_access_token o cfg
          (get_singpass_proxy o cfg (some (get_singpass_proxy o cfg none s).0) s').0
          code
          s'
        ≡ (err (message (codes "singpass signing key is not configured")), s')
  unfolding get_singpass_proxy new_singpass_proxy get_access_token
  get_singpass_proxy_once s s' e code h = rw h refl
