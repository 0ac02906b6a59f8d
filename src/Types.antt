-- ===== src/Types.antt =====
-- The data types of web-app/src/types.ts, and the parts of `Error` and of the HTTP client's response
-- that the program reads. An optional property is an `Option`; a number is a natural number.
use webca.Common.{ℕ, String, Bool, Option, List}
use webca.Common.Decimal.{ℤ}

pub record Account : Type 0 where
  pub id : String
  pub name : String
  pub created_at : String
  pub updated_at : String

pub record User : Type 0 where
  pub id : String
  pub email : String
  pub role : String
  pub created_at : String
  pub updated_at : String
  pub account : Account

pub record AuthenticationRequest : Type 0 where
  pub account_name : String
  pub email : String
  pub password : String

pub record AuthenticationResponse : Type 0 where
  pub token : String
  pub user : User

pub record InvitationCreationRequest : Type 0 where
  pub email : String
  pub role : String

pub record Invitation : Type 0 where
  pub id : String
  pub email : String
  pub role : String
  pub status : String
  pub created_by_id : String
  pub account : Account
  pub created_at : String
  pub valid_to : String
  pub accepted_at : Option String

pub record CertificateSubject : Type 0 where
  pub common_name : String
  pub country : Option String
  pub state : Option String
  pub locality : Option String
  pub organization : Option String
  pub organizational_unit : Option String
  pub email : Option String

pub record Certificate : Type 0 where
  pub id : String
  pub name : String
  pub serial_number : ℕ
  pub body : String
  pub subject : CertificateSubject
  pub format : String
  pub type : String
  pub signatory_id : Option String
  pub account_id : String
  pub created_at : String
  pub expires_at : String

pub record CertificateType : Type 0 where
  pub name : String
  pub active : Bool
  pub created_at : String
  pub updated_at : String

pub record CertificateOptions : Type 0 where
  pub types : List CertificateType
  pub algorithms : List String
  pub formats : List String

pub record Signatory : Type 0 where
  pub id : String
  pub password : String

-- Of the map `options` the program writes numbers only.
pub record CertificateRequest : Type 0 where
  pub name : String
  pub subject : CertificateSubject
  pub type : String
  pub algorithm : String
  pub signatory : Option Signatory
  pub password : String
  pub options : List (String × ℤ)
  pub expires_in_days : ℤ

pub record Attachment : Type 0 where
  pub body : String
  pub content_type : String
  pub filename : String

pub record Page (T : Type 0) : Type 0 where
  pub current_page : ℕ
  pub total_pages : ℕ
  pub total_results : ℕ
  pub results_per_page : ℕ
  pub results : List T

pub record Certificates : Type 0 where
  pub items : Option (Page Certificate)
  pub loaded : Bool

pub record SelectedCertificate : Type 0 where
  pub certificate : Option Certificate
  pub signatory : Option Certificate

pub record Signatories : Type 0 where
  pub certificates : List Certificate
  pub loaded : Bool

pub record UserState : Type 0 where
  pub user : Option User
  pub loaded : Bool

pub record InvitationState : Type 0 where
  pub invitation : Option Invitation
  pub loaded : Bool

pub record CertificateState : Type 0 where
  pub certificates : Certificates
  pub selected : SelectedCertificate
  pub options : Option CertificateOptions
  pub signatories : Signatories

-- JavaScript's `Error`: its name and its message.
pub record JsError : Type 0 where
  pub name : String
  pub message : String

pub record ErrorInfo : Type 0 where
  pub error : JsError
  pub info : String

pub record ErrorState : Type 0 where
  pub error : Option ErrorInfo

-- The properties that the program reads of the HTTP client's `ResponseMetadata`.
pub record ResponseMetadata : Type 0 where
  pub method : String
  pub status : ℕ
  pub url : String
  pub request_id : Option String

-- `HTTPResponse<T>` of the HTTP client.
pub record HttpResponse (T : Type 0) : Type 0 where
  pub body : Option T
  pub error : Option JsError
  pub metadata : ResponseMetadata

-- The identity of the browser and of the tab.
pub record StatusBody : Type 0 where
  pub status : String

pub record Client : Type 0 where
  pub id : String
  pub session_id : String

-- A choice of a dropdown, components/from/types.ts.
pub record SelectOption : Type 0 where
  pub id : String
  pub text : String
