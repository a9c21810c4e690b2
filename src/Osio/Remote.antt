-- ===== src/Osio/Remote.antt =====
-- middlewares/osio/{tenant,secret,token,jwt_token}.go: the locators, over the services that they
-- call.
pub mod Tenant
pub mod Secret
pub mod Token
pub mod Jwt
pub mod Wiring
pub mod Responsive
pub mod Safe
pub mod Wired
pub mod Panics
