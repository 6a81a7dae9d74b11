-- ===== src/Attack.antt =====
-- The MITRE ATT&CK mapping of internal/model/attack.go.
use archer.Prelude.{Option, none, some, List, [], ◌∷◌, Text, codes, lookup_text}

-- AttackTechnique
pub record Technique : Type 0 where
  pub id : Text
  pub name : Text
  pub tactic : Text

abbrev c2 : Text
c2 = codes "Command and Control"

abbrev technique : Text → Text → Text → Technique
technique i n t = record { id = i; name = n; tactic = t }

abbrev app_layer : Technique
app_layer = technique (codes "T1071") (codes "Application Layer Protocol") c2

abbrev web_proto : Technique
web_proto = technique (codes "T1071.001") (codes "Application Layer Protocol: Web Protocols") c2

abbrev dns_proto : Technique
dns_proto = technique (codes "T1071.004") (codes "Application Layer Protocol: DNS") c2

abbrev encrypted : Technique
encrypted = technique (codes "T1573") (codes "Encrypted Channel") c2

abbrev odd_port : Technique
odd_port = technique (codes "T1571") (codes "Non-Standard Port") c2

abbrev tunneling : Technique
tunneling = technique (codes "T1572") (codes "Protocol Tunneling") c2

abbrev fronting : Technique
fronting = technique (codes "T1090.004") (codes "Proxy: Domain Fronting") c2

abbrev dga : Technique
dga = technique (codes "T1568.002") (codes "Dynamic Resolution: Domain Generation Algorithms") c2

abbrev ingress : Technique
ingress = technique (codes "T1105") (codes "Ingress Tool Transfer") c2

abbrev exfil_alt : Technique
exfil_alt =
    technique (codes "T1048") (codes "Exfiltration Over Alternative Protocol")
      (codes "Exfiltration")

abbrev sched_xfer : Technique
sched_xfer = technique (codes "T1029") (codes "Scheduled Transfer") (codes "Exfiltration")

abbrev remote_svc : Technique
remote_svc = technique (codes "T1021") (codes "Remote Services") (codes "Lateral Movement")

-- attackByType
pub attack_by_type : List (Text × List Technique)
attack_by_type =
    (codes "Beacon", app_layer ∷ [])
    ∷ (codes "HTTP Beacon", web_proto ∷ [])
    ∷ (codes "DNS Beacon", dns_proto ∷ [])
    ∷ (codes "Port-Hopping Beacon", app_layer ∷ odd_port ∷ [])
    ∷ (codes "Strobe", app_layer ∷ [])
    ∷ (codes "Long Connection", app_layer ∷ [])
    ∷ (codes "Data Exfiltration", exfil_alt ∷ [])
    ∷ (codes "Off-Hours Transfer", sched_xfer ∷ [])
    ∷ (codes "Lateral Movement", remote_svc ∷ [])
    ∷ (codes "DNS Tunneling", dns_proto ∷ exfil_alt ∷ [])
    ∷ (codes "DNS NXDOMAIN Flood", dga ∷ [])
    ∷ (codes "DNS Subdomain DGA", dga ∷ [])
    ∷ (codes "Protocol Anomaly", app_layer ∷ [])
    ∷ (codes "C2 Port", odd_port ∷ [])
    ∷ (codes "C2 URI Pattern", web_proto ∷ [])
    ∷ (codes "Protocol on Unexpected Port", odd_port ∷ [])
    ∷ (codes "Admin Protocol Egress", remote_svc ∷ [])
    ∷ (codes "Database Protocol Egress", exfil_alt ∷ [])
    ∷ (codes "Cobalt Strike URI", web_proto ∷ [])
    ∷ (codes "Domain Fronting", fronting ∷ [])
    ∷ (codes "DoH Bypass", dns_proto ∷ tunneling ∷ [])
    ∷ (codes "Malicious JA3", encrypted ∷ [])
    ∷ (codes "Malicious JA4", encrypted ∷ [])
    ∷ (codes "Weak TLS", encrypted ∷ [])
    ∷ (codes "SSL No-SNI", encrypted ∷ [])
    ∷ (codes "SSL No-SNI on C2 Port", encrypted ∷ odd_port ∷ [])
    ∷ (codes "Suspicious Certificate", encrypted ∷ [])
    ∷ (codes "Suspicious File Download", ingress ∷ [])
    ∷ (codes "Suspicious TLD", app_layer ∷ [])
    ∷ (codes "Suspicious UA", web_proto ∷ [])
    ∷ (codes "Suspicious URL", web_proto ∷ [])
    ∷ (codes "Multi-Stage Beacon", app_layer ∷ remote_svc ∷ [])
    ∷ []

abbrev listed : Option (List Technique) → List Technique
listed none = []
listed (some ts) = ts

-- AttackTechniquesFor: nil for a type that the map does not have
unfoldable pub techniques_for : Text → List Technique
unfolding attack_by_type
techniques_for t = listed (lookup_text t attack_by_type)
