-- ===== src/Mail.antt =====
-- pkg/mail/mail.go: the sender that NewSender makes, and the message that Send hands to its dialer.
-- DialAndSend of gomail is a parameter, on the state `W` of what is outside the program.
pub mod Templates
use telekom_k8s_breakglass.Prelude.{
  ℕ, Bool, false, not, ◌&&◌, List, Str, codes, is_empty, if◌then◌else◌, ◌≡◌, arith,
}
use telekom_k8s_breakglass.Kube.{Written}

-- config.Mail, and the branding name of config.Frontend
pub record MailConfig : Type 0 where
  pub host : Str
  pub port : ℕ
  pub user : Str
  pub password : Str
  pub insecure_skip_verify : Bool
  pub sender_address : Str
  pub sender_name : Str
  pub branding_name : Str

-- gomail.Dialer: the arguments of gomail.NewDialer, and whether the TLS configuration skips the
-- verification
pub record Dialer : Type 0 where
  pub host : Str
  pub port : ℕ
  pub user : Str
  pub password : Str
  pub insecure_skip_verify : Bool

-- sender
pub record Sender : Type 0 where
  pub dialer : Dialer
  pub sender_address : Str
  pub sender_name : Str

-- NewSender
pub new_sender : MailConfig → Sender
new_sender cfg = record {
  dialer = record {
    host = cfg.host;
    port = cfg.port;
    user = cfg.user;
    password = cfg.password;
    insecure_skip_verify = cfg.insecure_skip_verify;
  };
  sender_address =
      if is_empty cfg.sender_address then codes "noreply@schiff.telekom.de" else cfg.sender_address;
  sender_name =
      let named =
        if is_empty cfg.sender_name && not (is_empty cfg.branding_name)
        then cfg.branding_name
        else cfg.sender_name in
      if is_empty named then codes "Breakglass" else named;
}

-- gomail.Message: the headers and the body that Send sets; the body's type is `text/html`
pub record Message : Type 0 where
  pub from_address : Str
  pub from_name : Str
  pub bcc : List Str
  pub subject : Str
  pub content_type : Str
  pub body : Str

unfoldable pub message : Sender → List Str → Str → Str → Message
message s receivers subject body = record {
  from_address = s.sender_address;
  from_name = s.sender_name;
  bcc = receivers;
  subject = subject;
  content_type = codes "text/html";
  body = body;
}

-- sender.Send
unfoldable pub send :
    {W : Type 0}
    → (Dialer → Message → W → Written W)
    → Sender
    → List Str
    → Str
    → Str
    → W
    → Written W
unfolding message
send dial_and_send s receivers subject body w =
    dial_and_send s.dialer (message s receivers subject body) w

-- GetHost
pub get_host : Sender → Str
get_host s = s.dialer.host

-- GetPort
pub get_port : Sender → ℕ
get_port s = s.dialer.port

-- The sender's address and name are never empty.
pub new_sender-nonempty :
    (cfg : MailConfig)
    → (is_empty (new_sender cfg).sender_address ≡ false)
      × (is_empty (new_sender cfg).sender_name ≡ false)
unfolding new_sender
new_sender-nonempty cfg = (ground arith, ground arith)
