-- ===== src/Errors.antt =====
-- src/error.rs: the errors of the proxy, by category.
use ocpp_proxy.Base.{String, [], ◌∷◌}
use ocpp_proxy.Base.Text.{format}

pub data ProxyError : Type 0 where
  connection_downstream connection_upstream connection_mqtt : String → ProxyError
  forwarding config protocol tls : String → ProxyError

-- `ProxyError::category`
unfoldable pub category : ProxyError → String
category (connection_downstream d) = "connection_downstream"
category (connection_upstream d) = "connection_upstream"
category (connection_mqtt d) = "connection_mqtt"
category (forwarding d) = "forwarding"
category (config d) = "config"
category (protocol d) = "protocol"
category (tls d) = "tls"

-- `ProxyError::description`
unfoldable pub description : ProxyError → String
description (connection_downstream d) = d
description (connection_upstream d) = d
description (connection_mqtt d) = d
description (forwarding d) = d
description (config d) = d
description (protocol d) = d
description (tls d) = d

-- `Display`, with its prefix written out in each case
unfoldable pub fmt : ProxyError → String
fmt (connection_downstream d) = format ("[connection_downstream] " ∷ d ∷ [])
fmt (connection_upstream d) = format ("[connection_upstream] " ∷ d ∷ [])
fmt (connection_mqtt d) = format ("[connection_mqtt] " ∷ d ∷ [])
fmt (forwarding d) = format ("[forwarding] " ∷ d ∷ [])
fmt (config d) = format ("[config] " ∷ d ∷ [])
fmt (protocol d) = format ("[protocol] " ∷ d ∷ [])
fmt (tls d) = format ("[tls] " ∷ d ∷ [])
